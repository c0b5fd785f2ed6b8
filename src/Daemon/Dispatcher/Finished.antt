-- ===== src/Daemon/Dispatcher/Finished.antt =====
-- The last state of an event, over the wakes of RunDispatcher.
use secret_control_panel.Base.{
  nat_eq, length, All, All-mem, All-of-mem, ℕ, ◌+◌, ◌-◌, ◌≤◌, ◌<◌, ◌≡◌, refl, true, Option, none,
  some, List, [], ◌∷◌, map, le_refl, arith,
}
use secret_control_panel.Wire.{Time}
use secret_control_panel.Db.{EventRow, Status, pending, dispatched, failed, dead}
use secret_control_panel.Db.World.{World}
use secret_control_panel.Db.Smooth.{Smooth}
use secret_control_panel.Daemon.Store.{is_due_status}
use secret_control_panel.Daemon.Backoff.{max_backoff}
use secret_control_panel.Daemon.Processor.{woken, pass}
use secret_control_panel.Daemon.Dispatcher.{max_attempts, drain_pending, run_dispatcher}
use secret_control_panel.Daemon.Dispatcher.Ready.{IsRetryable, UniqueEvents}
use secret_control_panel.Daemon.Dispatcher.Rounds.{rounds_left, event_rounds, all_rounds}
use secret_control_panel.Daemon.Dispatcher.Lifecycle.{
  Attempted, IsSound, IsOrderly, run_dispatcher-IsOrderly,
}
use secret_control_panel.Daemon.Dispatcher.Keeps.{drain_pending-Keeps}
use secret_control_panel.Daemon.Dispatcher.Waiting.{retry_by, IsSoon, IsSoon-later, Keeps-IsWaiting}
use secret_control_panel.Daemon.Dispatcher.Ageing.{Keeps-IsCalm, AllDue, drain_pending-falls}

-- Nothing more will be done for an event in this status.
abbrev pub IsFinal : Status → Type 0
IsFinal pending = ⊥
IsFinal failed = ⊥
IsFinal dispatched = Unit
IsFinal dead = Unit

sound-IsFinal : (s : Status) (n : ℕ) → Attempted s n → rounds_left s n ≤ 1 → IsFinal s
sound-IsFinal pending n h le = absurd (omega (arith, h, le))
sound-IsFinal failed n (lo, hi) le = absurd (omega (arith, hi, le))
sound-IsFinal dispatched n h le = tt
sound-IsFinal dead n h le = tt

first-rounds : (s : Status) (n : ℕ) → rounds_left s n ≤ 6
first-rounds pending n = omega arith
first-rounds failed n = omega arith
first-rounds dispatched n = omega arith
first-rounds dead n = omega arith

due_by :
    (s : Status) (at : Option Time) (now : ℕ)
    → retry_by at < now
    → IsRetryable s
    → is_due_status now at s ≡ true
due_by pending at now h r = refl
due_by failed none now h r = refl
due_by failed (some t) now h r = ground arith
due_by dispatched at now h r = absurd r
due_by dead at now h r = absurd r

-- After a wait of more than the longest backoff, all that waits is due.
waited-AllDue :
    (t now : ℕ) (events : List EventRow)
    → max_backoff < t
    → IsSoon now events
    → AllDue (now + t) events
waited-AllDue t now events long soon = All-of-mem _ events (λ e m retryable.
    let by = All-mem _ soon m in due_by e.status e.next_retry_at (now + t) (omega arith) retryable)

-- What is needed for the next wake.
record IsPoised (n : ℕ) (w : World) : Type 0 where
  smooth : Smooth w
  unique : UniqueEvents w.db.events
  soon : IsSoon w.clock w.db.events
  fewer : all_rounds w.db.events ≤ n

round-IsPoised :
    (fuel n t : ℕ) (w : World) → IsPoised n w → IsPoised n (drain_pending fuel (pass t w)).1
round-IsPoised fuel n t w h =
    let w' = pass t w in
    let soon = IsSoon-later w.clock w'.clock w.db.events (omega arith) h.soon in
    let (u, calm) = drain_pending-Keeps _ (Keeps-IsCalm n) fuel w' h.unique (h.smooth, h.fewer) in
    record {
      smooth = calm.0;
      unique = u;
      soon = (drain_pending-Keeps _ (Keeps-IsWaiting 0) fuel w' h.unique (omega arith, soon)).1.1;
      fewer = calm.1;
    }

wakes-fall :
    (fuel n m : ℕ) (waits : List ℕ) (w : World)
    → n < fuel
    → IsPoised n w
    → All (λ t. max_backoff < t) waits
    → All (λ e. event_rounds e ≤ m) w.db.events
    → All
        (λ e. event_rounds e ≤ m - length waits)
        (run_dispatcher fuel (map woken waits) w).db.events
unfolding run_dispatcher
wakes-fall fuel n m [] w lt h long bound =
    All-of-mem _ w.db.events (λ e k. let le = All-mem _ bound k in omega arith)
wakes-fall fuel n m (t ∷ waits) w lt h long bound =
    let w' = pass t w in
    let v = (drain_pending fuel w').1 in
    let soon = IsSoon-later w.clock w'.clock w.db.events (omega arith) h.soon in
    let falls =
      drain_pending-falls fuel w' m h.smooth h.unique (omega (arith, lt, h.fewer)) soon
        (waited-AllDue t w.clock w.db.events long.0 h.soon) bound in
    let rest = wakes-fall fuel n (m - 1) waits v lt (round-IsPoised fuel n t w h) long.1 falls in
    All-of-mem _ (run_dispatcher fuel (map woken waits) v).db.events
      (λ e k. let le = All-mem _ rest k in omega arith)

-- Where no call of the database fails, whatever the agents answer: after five wakes, each more than
-- five minutes after the round before, every event is dispatched or dead. It is enough that the ids
-- of the events are unique, that every event is in a lawful state, that no retry is more than five
-- minutes ahead, and that the fuel of a round is above `all_rounds` of the events.
pub run_dispatcher-IsFinal :
    (fuel : ℕ) (waits : List ℕ) (w : World)
    → Smooth w
    → IsOrderly w.db.events
    → IsSoon w.clock w.db.events
    → all_rounds w.db.events < fuel
    → length waits ≡ max_attempts
    → All (λ t. max_backoff < t) waits
    → All (λ (e : EventRow). IsFinal e.status) (run_dispatcher fuel (map woken waits) w).db.events
run_dispatcher-IsFinal fuel waits w s orderly soon enough five long =
    let v = run_dispatcher fuel (map woken waits) w in
    let sound = (run_dispatcher-IsOrderly fuel (map woken waits) w orderly).1 in
    let bound =
      wakes-fall fuel (all_rounds w.db.events) 6 waits w enough
        (record {
          smooth = s;
          unique = orderly.0;
          soon = soon;
          fewer = le_refl (all_rounds w.db.events);
        })
        long (All-of-mem _ w.db.events (λ e m. first-rounds e.status e.attempts)) in
    All-of-mem _ v.db.events (λ e m.
      let le = All-mem _ bound m in
      sound-IsFinal e.status e.attempts (All-mem IsSound sound m) (omega (arith, le, five)))
