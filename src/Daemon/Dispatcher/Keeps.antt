-- ===== src/Daemon/Dispatcher/Keeps.antt =====
-- A rule for what drainPending and RunDispatcher keep: it is enough that a fetch, the time and the
-- dispatch of an event that is as the table has it keep it.
use secret_control_panel.Base.{
  nat_eq, All, All-mem, All-of-mem, Result, ok, err, Pairs, ℕ, zero, suc, ◌≡◌, refl, sym, subst,
  ◌≢◌, List, [], ◌∷◌, Memᴰ,
}
use secret_control_panel.Db.{Db, EventRow}
use secret_control_panel.Db.World.{World, Error, select_pending}
use secret_control_panel.Db.Steps.{autocommit-read}
use secret_control_panel.Daemon.Store.{PendingEvent, fetch_pending}
use secret_control_panel.Daemon.Processor.{batch_size, Wake, woken, context_done, pass}
use secret_control_panel.Daemon.Dispatcher.{
  dispatch_one, dispatch_batch, drain_pending, run_dispatcher,
}
use secret_control_panel.Daemon.Dispatcher.Rows.{dispatch_one-Tried}
use secret_control_panel.Daemon.Dispatcher.Ready.{
  UniqueEvents, ids, IsReady, IsBatch, Tried-ids, Tried-IsBatch, fetched-IsBatch,
}
use secret_control_panel.Daemon.Dispatcher.Unaltered.{
  IsRow, Tried-IsRow, fetched_rule, fetched-IsRow, id_of,
}

-- The batch agrees with the table, and its events are in it.
record IsCurrent (events : List EventRow) (batch : List PendingEvent) : Type 0 where
  agrees : IsBatch events batch
  rows : All (IsRow events) batch
  known : All (λ q. Memᴰ q.id (ids events)) batch

fetched-IsCurrent :
    (w : World) (batch : List PendingEvent)
    → UniqueEvents w.db.events
    → (fetch_pending batch_size w).0 ≡ ok batch
    → IsCurrent w.db.events batch
fetched-IsCurrent w batch unique h = record {
  agrees = fetched-IsBatch w batch unique h;
  rows = fetched-IsRow w batch unique h;
  known = fetched_rule (λ q. Memᴰ q.id (ids w.db.events)) w batch h (λ e m. id_of e w.db.events m);
}

IsCurrent-rest :
    (ev : PendingEvent) (batch : List PendingEvent) (w : World)
    → IsCurrent w.db.events (ev ∷ batch)
    → IsCurrent (dispatch_one ev w).1.db.events batch
IsCurrent-rest ev batch w b =
    let new = (dispatch_one ev w).1.db in
    let tried = dispatch_one-Tried ev w in
    record {
      agrees = Tried-IsBatch ev w.db new batch tried b.agrees;
      rows =
          All-of-mem (IsRow new.events) batch
            (λ q m. Tried-IsRow ev q w.db new tried (All-mem (IsRow w.db.events) b.rows.1 m));
      known =
          subst (λ is. All (λ (q : PendingEvent). Memᴰ q.id is) batch)
            (sym (Tried-ids ev w.db new tried)) b.known.1;
    }

-- The event is as the table has it.
pub record IsCopy (events : List EventRow) (ev : PendingEvent) : Type 0 where
  pub ready : IsReady events ev
  pub row : IsRow events ev
  pub known : Memᴰ ev.id (ids events)

pub fetch-read : (w : World) → (fetch_pending batch_size w).1.db ≡ w.db
unfolding fetch_pending
fetch-read w = autocommit-read select_pending _ w

pub record Keeps (Q : World → Type 0) : Type 0 where
  pub fetch : (w : World) → Q w → Q (fetch_pending batch_size w).1
  pub dispatch :
      (ev : PendingEvent) (w : World) → IsCopy w.db.events ev → Q w → Q (dispatch_one ev w).1

module _ (Q : World → Type 0) (keeps : Keeps Q) where
  batch-Keeps :
      (batch : List PendingEvent) (w : World)
      → IsCurrent w.db.events batch
      → UniqueEvents w.db.events
      → Q w
      → UniqueEvents (dispatch_batch batch w).db.events × Q (dispatch_batch batch w)
  unfolding dispatch_batch
  batch-Keeps [] w b u q = (u, q)
  batch-Keeps (ev ∷ batch) w b u q =
      let w' = (dispatch_one ev w).1 in
      let tried = dispatch_one-Tried ev w in
      batch-Keeps batch w' (IsCurrent-rest ev batch w b)
        (subst (Pairs ◌≢◌) (sym (Tried-ids ev w.db w'.db tried)) u)
        (keeps.dispatch ev w
          (record { ready = b.agrees.ready.0; row = b.rows.0; known = b.known.0 }) q)

  pub drain_pending-Keeps :
      (fuel : ℕ) (w : World)
      → UniqueEvents w.db.events
      → Q w
      → UniqueEvents (drain_pending fuel w).1.db.events × Q (drain_pending fuel w).1
  unfolding drain_pending
  drain_pending-Keeps zero w u q = (u, q)
  drain_pending-Keeps (suc fuel) w u q =
      by_batch (fetch_pending batch_size w).0 refl (drain_pending-Keeps fuel)
    where
      w' : World
      w' = (fetch_pending batch_size w).1

      read : w'.db ≡ w.db
      read = unfold fetch_pending in autocommit-read select_pending _ w

      u' : UniqueEvents w'.db.events
      u' = subst (λ (d : Db). UniqueEvents d.events) (sym read) u

      by_batch :
          (r : Result Error (List PendingEvent))
          → (fetch_pending batch_size w).0 ≡ r
          → ((v : World)
              → UniqueEvents v.db.events
              → Q v
              → UniqueEvents (drain_pending fuel v).1.db.events × Q (drain_pending fuel v).1)
          → UniqueEvents (drain_pending (suc fuel) w).1.db.events × Q (drain_pending (suc fuel) w).1
      by_batch (err e) k later = rw (k, drain_pending) (u', keeps.fetch w q)
      by_batch (ok []) k later = rw (k, drain_pending) (u', keeps.fetch w q)
      by_batch (ok (ev ∷ batch)) k later =
          let fetched =
            subst (λ (d : Db). IsCurrent d.events (ev ∷ batch)) (sym read)
              (fetched-IsCurrent w (ev ∷ batch) u k) in
          let (v, kept) = batch-Keeps (ev ∷ batch) w' fetched u' (keeps.fetch w q) in
          rw (k, drain_pending) (later (dispatch_batch (ev ∷ batch) w') v kept)

  pub run_dispatcher-Keeps :
      ((t : ℕ) (w : World) → Q w → Q (pass t w))
      → (fuel : ℕ) (wakes : List Wake) (w : World) → UniqueEvents w.db.events
      → Q w
      → UniqueEvents (run_dispatcher fuel wakes w).db.events × Q (run_dispatcher fuel wakes w)
  unfolding run_dispatcher
  run_dispatcher-Keeps passes fuel [] w u q = (u, q)
  run_dispatcher-Keeps passes fuel (context_done ∷ wakes) w u q = (u, q)
  run_dispatcher-Keeps passes fuel (woken t ∷ wakes) w u q =
      let (u', q') = drain_pending-Keeps fuel (pass t w) u (passes t w q) in
      run_dispatcher-Keeps passes fuel wakes (drain_pending fuel (pass t w)).1 u' q'
