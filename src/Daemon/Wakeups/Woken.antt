-- ===== src/Daemon/Wakeups/Woken.antt =====
-- What the notices are for: the daemon gets to an empty inbox by its own steps.
use secret_control_panel.Base.{
  nat_eq, length, Result, ok, err, ℕ, zero, suc, ◌+◌, ◌<◌, ◌≡◌, refl, sym, ap, subst, ◌∙◌, ◌≢◌,
  Bool, true, false, none, List, [], ◌∷◌, arith,
}
use secret_control_panel.Db.World.{World, Error}
use secret_control_panel.Db.Smooth.{Smooth}
use secret_control_panel.Daemon.Store.{Task, fetch_tasks}
use secret_control_panel.Daemon.Processor.{Resolver, batch_size, process_batch, drain_tasks}
use secret_control_panel.Daemon.Processor.Total.{drain_tasks-total}
use secret_control_panel.Daemon.Wakeups.{
  Phase, selecting, fetching, fanning, System, started, after_fetch, fanned, Own, read, wake, fetch,
  fan, Move, Reaches, here, then_step,
}
use secret_control_panel.Daemon.Wakeups.Attended.{IsAttended, reached-IsAttended}

module _ {Step : System → System → Type 0} where
  join_runs : {s t u : System} → Reaches Step s t → Reaches Step t u → Reaches Step s u
  join_runs a here = a
  join_runs a (then_step b step) = then_step (join_runs a b) step

module _ (resolver : Resolver) where
  -- From `s` the daemon's own steps lead to a state of the phase with the world.
  abbrev pub Comes : System → Phase → World → Type 0
  Comes s phase w = (t : System) × Reaches (Own resolver) s t × (t.phase ≡ phase) × (t.world ≡ w)

  comes_after :
      {s t : System} {phase : Phase} {w : World}
      → Reaches (Own resolver) s t
      → Comes t phase w
      → Comes s phase w
  comes_after first (u, later, p, e) = (u, join_runs first later, p, e)

  batch-Comes :
      (b : Task) (batch : List Task) (s : System)
      → s.phase ≡ fanning b batch
      → Comes s fetching (process_batch resolver (b ∷ batch) s.world).1
  unfolding process_batch
  batch-Comes b [] s p = (fanned resolver b [] s, then_step here (fan b [] p), refl, refl)
  batch-Comes b (c ∷ batch) s p =
      comes_after (then_step here (fan b (c ∷ batch) p))
        (batch-Comes c batch (fanned resolver b (c ∷ batch) s) refl)

  -- The claim about a drain, for one fuel.
  Drains : ℕ → Type 0
  Drains fuel =
      (s : System)
      → s.phase ≡ fetching
      → (drain_tasks fuel resolver s.world).0 ≢ none
      → Comes s selecting (drain_tasks fuel resolver s.world).1

  resumed :
      (fuel : ℕ) (s : System) (w : World)
      → Drains fuel
      → Comes s fetching w
      → (drain_tasks fuel resolver w).0 ≢ none
      → Comes s selecting (drain_tasks fuel resolver w).1
  unfolding Drains
  resumed fuel s w later (t, run, p, e) ends = comes_after run (
      subst (λ v. Comes t selecting (drain_tasks fuel resolver v).1) e
        (later t p (subst (λ v. (drain_tasks fuel resolver v).0 ≢ none) (sym e) ends)))

  -- The small steps of a drain are those of drainTasks.
  drain-Comes : (fuel : ℕ) → Drains fuel
  unfolding Drains drain_tasks
  drain-Comes zero s p ends = absurd (ends refl)
  drain-Comes (suc fuel) s p ends =
      by_batch (fetch_tasks batch_size s.world).0 refl (drain-Comes fuel) ends
    where
      w : World
      w = (fetch_tasks batch_size s.world).1

      fetched_as :
          (r : Result Error (List Task))
          → (fetch_tasks batch_size s.world).0 ≡ r
          → Reaches (Own resolver) s (after_fetch r w s)
      fetched_as r k =
          subst (λ q. Reaches (Own resolver) s (after_fetch q w s)) k (then_step here (fetch p))

      went_on :
          (b : Task) (batch : List Task)
          → (fetch_tasks batch_size s.world).0 ≡ ok (b ∷ batch)
          → (drain_tasks (suc fuel) resolver s.world).0 ≢ none
          → (drain_tasks fuel resolver (process_batch resolver (b ∷ batch) w).1).0 ≢ none
      went_on b batch k ends e = ends (rw (k, drain_tasks) e)

      by_batch :
          (r : Result Error (List Task))
          → (fetch_tasks batch_size s.world).0 ≡ r
          → Drains fuel
          → (drain_tasks (suc fuel) resolver s.world).0 ≢ none
          → Comes s selecting (drain_tasks (suc fuel) resolver s.world).1
      by_batch (err e) k later ends =
          rw (k, drain_tasks) (after_fetch (err e) w s, fetched_as (err e) k, refl, refl)
      by_batch (ok []) k later ends =
          rw (k, drain_tasks) (after_fetch (ok []) w s, fetched_as (ok []) k, refl, refl)
      by_batch (ok (b ∷ batch)) k later ends =
          rw (k, drain_tasks)
            (comes_after (fetched_as (ok (b ∷ batch)) k) (
              resumed fuel (after_fetch (ok (b ∷ batch)) w s)
                (process_batch resolver (b ∷ batch) w).1 later
                (batch-Comes b batch (after_fetch (ok (b ∷ batch)) w s) refl)
                (went_on b batch k ends)))

  woken :
      (s : System)
      → s.phase ≡ selecting
      → IsAttended s
      → 0 < s.unread + s.wakeups
      → Comes s fetching s.world
  woken s p h waits = by_channel s.wakeups s.unread s.listening refl refl refl
    where
      by_channel :
          (n m : ℕ) (l : Bool)
          → s.wakeups ≡ n
          → s.unread ≡ m
          → s.listening ≡ l
          → Comes s fetching s.world
      by_channel (suc n) m l en em el = (_, then_step here (wake n p en), refl, refl)
      by_channel zero zero l en em el = absurd (omega arith)
      by_channel zero (suc m) false en em el = absurd (omega (arith, h.unheard el))
      by_channel zero (suc m) true en em el =
          (_, then_step (then_step here (read m el em)) (wake 0 p (rw en refl)), refl, refl)

-- From every state that the daemon can reach in which the processor waits in its select while tasks
-- are in the inbox, no notice was lost and no fetch failed after the last fetch that found the inbox
-- empty: where the next calls of the database do not fail, the subscriber and the processor can come
-- to an empty inbox by their own steps, without the ticker and without a new notice.
pub reached-drained :
    (resolver : Resolver) (w : World) (s : System)
    → Reaches (Move resolver) (started w) s
    → s.phase ≡ selecting
    → s.missed ≡ false
    → s.world.db.tasks ≢ []
    → Smooth s.world
    → (t : System) × Reaches (Own resolver) s t × (t.phase ≡ selecting) × (t.world.db.tasks ≡ [])
reached-drained resolver w s run p m ne smooth =
    let h = reached-IsAttended resolver w s run in
    let fuel : ℕ = suc (length s.world.db.tasks) in
    let (ended, empty) = drain_tasks-total fuel resolver s.world smooth (omega arith) in
    let (t, run', q, e) =
      resumed resolver fuel s s.world (drain-Comes resolver fuel)
        (woken resolver s p h (h.attended p m ne)) (λ out. absurd (ground arith)) in
    (t, run', q, ap (λ (v : World). v.db.tasks) e ∙ empty)
