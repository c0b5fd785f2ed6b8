-- ===== src/Daemon/Dispatcher/Draining.antt =====
-- The loop of drainPending ends: every round uses up an attempt of every event that it fetches.
use mathlib.Core.List.Memᴰ
use mathlib.Core.List.Permᴰ
use mathlib.Core.Path.{subst₂}
use secret_control_panel.Base.{
  ltb, nat_eq, take, filter, mem-perm, mem-filter, mem_of-filter, Result, ok, err, Pairs, ℕ, zero,
  suc, ◌≤◌, ◌<◌, ◌≡◌, refl, sym, ap, subst, ◌≢◌, inr, Bool, Option, some, List, [], ◌∷◌, map, Memᴰ,
  Permᴰ, le_trans, le_refl, arith,
}
use secret_control_panel.Wire.{Time}
use secret_control_panel.Db.{Db, EventRow, pending}
use secret_control_panel.Db.World.{World, Error, after_call, select_pending, autocommit}
use secret_control_panel.Db.Steps.{autocommit-read, autocommit-ok}
use secret_control_panel.Db.Smooth.{Smooth, Succeeds, Succeeds-autocommit}
use secret_control_panel.Sort.Insertion.{insertion_sort, insertion_sort-perm}
use secret_control_panel.Daemon.Store.{PendingEvent, scan_event, is_due, fetch_pending}
use secret_control_panel.Daemon.Processor.{batch_size}
use secret_control_panel.Daemon.Dispatcher.{dispatch_one, dispatch_batch, drain_pending}
use secret_control_panel.Daemon.Dispatcher.Rows.{dispatch_one-Moved}
use secret_control_panel.Daemon.Dispatcher.Ready.{
  UniqueEvents, IsBatch, Tried-ids, Tried-IsBatch, fetched-IsBatch,
}
use secret_control_panel.Daemon.Dispatcher.Rounds.{all_rounds, Moved-le, Moved-lt}

-- The batch that is left, after its dispatch without failing calls.
record Left (old : List EventRow) (w : World) : Type 0 where
  smooth : Smooth w
  unique : UniqueEvents w.db.events
  fewer : all_rounds w.db.events ≤ all_rounds old

batch-Left :
    (batch : List PendingEvent) (w : World)
    → Smooth w
    → UniqueEvents w.db.events
    → IsBatch w.db.events batch
    → Left w.db.events (dispatch_batch batch w)
unfolding dispatch_batch
batch-Left [] w s u b = record { smooth = s; unique = u; fewer = le_refl (all_rounds w.db.events) }
batch-Left (ev ∷ batch) w s u b =
    let w' = (dispatch_one ev w).1 in
    let (moved, s') = dispatch_one-Moved ev w s in
    let rest =
      batch-Left batch w' s' (subst (Pairs ◌≢◌) (sym (Tried-ids ev w.db w'.db (inr moved))) u)
        (Tried-IsBatch ev w.db w'.db batch (inr moved) b) in
    record {
      smooth = rest.smooth;
      unique = rest.unique;
      fewer = le_trans rest.fewer (Moved-le ev w.db w'.db moved b.ready.0);
    }

batch-lt :
    (ev : PendingEvent) (batch : List PendingEvent) (w : World) {r : EventRow}
    → Smooth w
    → UniqueEvents w.db.events
    → IsBatch w.db.events (ev ∷ batch)
    → Memᴰ r w.db.events
    → r.id ≡ ev.id
    → all_rounds (dispatch_batch (ev ∷ batch) w).db.events < all_rounds w.db.events
unfolding dispatch_batch
batch-lt ev batch w s u b m k =
    let w' = (dispatch_one ev w).1 in
    let (moved, s') = dispatch_one-Moved ev w s in
    let rest =
      batch-Left batch w' s' (subst (Pairs ◌≢◌) (sym (Tried-ids ev w.db w'.db (inr moved))) u)
        (Tried-IsBatch ev w.db w'.db batch (inr moved) b) in
    let less = Moved-lt ev w.db w'.db moved b.ready.0 m k in
    let fewer = rest.fewer in omega (arith, less, fewer)

pub fetch_pending-Succeeds : Succeeds (fetch_pending batch_size)
unfolding fetch_pending
fetch_pending-Succeeds = Succeeds-autocommit select_pending _

by_event_id : EventRow → EventRow → Bool
by_event_id a b = ltb a.id b.id

first_event :
    (w : World) (ev : PendingEvent) (batch : List PendingEvent)
    → (fetch_pending batch_size w).0 ≡ ok (ev ∷ batch)
    → (r : EventRow) × Memᴰ r w.db.events × (r.id ≡ ev.id)
unfolding fetch_pending by_event_id
first_event w ev batch h =
    first (insertion_sort by_event_id due) (insertion_sort-perm by_event_id due)
      (autocommit-ok select_pending _ w h).0
  where
    due : List EventRow
    due = filter (is_due (after_call w).clock) w.db.events

    first :
        (sorted : List EventRow)
        → Permᴰ due sorted
        → ev ∷ batch ≡ map scan_event (take batch_size sorted)
        → (r : EventRow) × Memᴰ r w.db.events × (r.id ≡ ev.id)
    first [] p e = absurd (ground arith)
    first (r ∷ rest) p e = (
      r,
      (mem_of-filter (is_due (after_call w).clock) w.db.events
          (mem-perm (Permᴰ.symm p) (Memᴰ.head refl))).0,
      ground arith,
    )

none_due :
    (w : World)
    → (fetch_pending batch_size w).0 ≡ ok []
    → filter (is_due (after_call w).clock) w.db.events ≡ []
unfolding fetch_pending by_event_id
none_due w h =
    empty due (insertion_sort by_event_id due) (insertion_sort-perm by_event_id due)
      (autocommit-ok select_pending _ w h).0
  where
    due : List EventRow
    due = filter (is_due (after_call w).clock) w.db.events

    empty :
        (es sorted : List EventRow)
        → Permᴰ es sorted
        → [] ≡ map scan_event (take batch_size sorted)
        → es ≡ []
    empty [] sorted p e = refl
    empty (t ∷ es) [] p e = absurd (Memᴰ.not-nil (mem-perm p (Memᴰ.head refl)))
    empty (t ∷ es) (r ∷ rest) p e = absurd (ground arith)

-- The state in which drainPending returns: no error, and no event that is due at its last look.
abbrev pub IsDrained : Option (Result Error (Unit {0})) × World → Type 0
IsDrained (r, w) = (r ≡ some (ok tt)) × (filter (is_due w.clock) w.db.events ≡ [])

pub not-pending :
    (now : Time) (events : List EventRow) (e : EventRow)
    → filter (is_due now) events ≡ []
    → Memᴰ e events
    → e.status ≢ pending
not-pending now events e none_due m waits =
    Memᴰ.not-nil (subst (Memᴰ e) none_due (mem-filter (is_due now) events m (rw waits refl)))

fetch-clock : (w : World) → (fetch_pending batch_size w).1.clock ≡ (after_call w).clock
unfolding fetch_pending autocommit
fetch-clock w = ground arith

-- Where no call of the database fails and the ids of the events are unique, drainPending ends without
-- an error, whatever becomes of its POSTs and however fast the retries fall due: fuel above
-- `all_rounds` is enough, which counts 6 rounds less the failed attempts for each pending or failed
-- event. No event is due when it returns.
pub drain_pending-IsDrained :
    (fuel : ℕ) (w : World)
    → Smooth w
    → UniqueEvents w.db.events
    → all_rounds w.db.events < fuel
    → IsDrained (drain_pending fuel w)
unfolding drain_pending
drain_pending-IsDrained zero w s u h = absurd (omega arith)
drain_pending-IsDrained (suc fuel) w s u h =
    by_batch (fetch_pending batch_size w).0 refl (drain_pending-IsDrained fuel)
  where
    w' : World
    w' = (fetch_pending batch_size w).1

    read : w'.db ≡ w.db
    read = unfold fetch_pending in autocommit-read select_pending _ w

    s' : Smooth w'
    s' = fetch_pending-Succeeds.smooth w s

    u' : UniqueEvents w'.db.events
    u' = subst (λ (d : Db). UniqueEvents d.events) (sym read) u

    by_batch :
        (r : Result Error (List PendingEvent))
        → (fetch_pending batch_size w).0 ≡ r
        → ((v : World)
            → Smooth v
            → UniqueEvents v.db.events
            → all_rounds v.db.events < fuel
            → IsDrained (drain_pending fuel v))
        → IsDrained (drain_pending (suc fuel) w)
    by_batch (err e) k later = let (a, good) = fetch_pending-Succeeds.result w s in cc (good, k)
    by_batch (ok []) k later =
        rw (k, drain_pending)
          (
            refl,
            subst₂ (λ now (d : Db). filter (is_due now) d.events ≡ []) (sym (fetch-clock w))
                (sym read) (none_due w k),
          )
    by_batch (ok (ev ∷ batch)) k later =
        let (r, m, same) = first_event w ev batch k in
        let fetched =
          subst (λ (d : Db). IsBatch d.events (ev ∷ batch)) (sym read)
            (fetched-IsBatch w (ev ∷ batch) u k) in
        let left = batch-Left (ev ∷ batch) w' s' u' fetched in
        let less =
          batch-lt ev batch w' s' u' fetched (subst (λ (d : Db). Memᴰ r d.events) (sym read) m)
            same in
        rw (k, drain_pending)
          (later (dispatch_batch (ev ∷ batch) w') left.smooth left.unique
            (omega (arith, less, ap (λ (d : Db). all_rounds d.events) read)))
