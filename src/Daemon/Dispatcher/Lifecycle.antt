-- ===== src/Daemon/Dispatcher/Lifecycle.antt =====
-- The life of an event through the dispatcher: pending, failed attempts, then dispatched or dead.
use secret_control_panel.Base.{
  leb, leb_iff, Bool-cases, nat_eq, All, All-mem, All-of-mem, ℕ, ◌+◌, ◌≤◌, ◌<◌, ◌≡◌, sym, subst,
  inl, inr, List, arith,
}
use secret_control_panel.Db.{Db, EventRow, Status, pending, dispatched, failed, dead}
use secret_control_panel.Db.World.{World}
use secret_control_panel.Daemon.Store.{PendingEvent, set_dispatched}
use secret_control_panel.Daemon.Processor.{Wake}
use secret_control_panel.Daemon.Dispatcher.{max_attempts, dispatch_one, run_dispatcher}
use secret_control_panel.Daemon.Dispatcher.Rows.{
  fail_once, fails, delivers, Tried, dispatch_one-Tried,
}
use secret_control_panel.Daemon.Dispatcher.Keeps.{Keeps, fetch-read, run_dispatcher-Keeps}
use secret_control_panel.Daemon.Dispatcher.Ready.{IsRetryable, UniqueEvents, IsReady, All-update}

-- How many attempts have failed for an event of a status.
abbrev pub Attempted : Status → ℕ → Type 0
Attempted pending n = n ≡ 0
Attempted failed n = (1 ≤ n) × (n < max_attempts)
Attempted dispatched n = n < max_attempts
Attempted dead n = n ≡ max_attempts

abbrev pub IsSound : EventRow → Type 0
IsSound e = Attempted e.status e.attempts

retryable-below : (s : Status) (n : ℕ) → IsRetryable s → Attempted s n → n < max_attempts
retryable-below pending n r h = omega arith
retryable-below failed n r h = h.1
retryable-below dispatched n r h = absurd r
retryable-below dead n r h = absurd r

fail_once-IsSound :
    (ev : PendingEvent) (next : ℕ) (e : EventRow)
    → ev.attempts < max_attempts
    → IsSound (fail_once ev next e)
fail_once-IsSound ev next e h = elim (Bool-cases (leb max_attempts (ev.attempts + 1))) [
  | inl over ↦ rw over (let enough = (leb_iff max_attempts (ev.attempts + 1)).0 over in omega arith)
  | inr more ↦ rw more (ground arith)
]

module _ (ev : PendingEvent) (old new : Db) where
  Tried-IsSound :
      Tried ev old new → IsReady old.events ev → All IsSound old.events → All IsSound new.events
  Tried-IsSound (inl e) ready sound = subst (λ (d : Db). All IsSound d.events) (sym e) sound
  Tried-IsSound (inr (fails next e)) ready sound =
      subst (λ (d : Db). All IsSound d.events) (sym e)
        (All-update ev.id (fail_once ev next) IsSound old.events (
          All-of-mem _ old.events (λ r m. (
            λ hit.
                let (same, retryable) = All-mem _ ready m hit in
                fail_once-IsSound ev next r (
                  subst (λ n. n < max_attempts) same
                    (retryable-below r.status r.attempts retryable (All-mem IsSound sound m))),
            λ miss. All-mem IsSound sound m,
          ))))
  Tried-IsSound (inr (delivers now e)) ready sound =
      subst (λ (d : Db). All IsSound d.events) (sym e)
        (All-update ev.id (set_dispatched now) IsSound old.events (
          All-of-mem _ old.events (λ r m. (
            λ hit.
                retryable-below r.status r.attempts (All-mem _ ready m hit).1
                  (All-mem IsSound sound m),
            λ miss. All-mem IsSound sound m,
          ))))

-- The events have unique ids and are sound.
abbrev pub IsOrderly : List EventRow → Type 0
IsOrderly events = UniqueEvents events × All IsSound events

pub Keeps-IsSound : Keeps (λ w. All IsSound w.db.events)
Keeps-IsSound = record {
  fetch = λ w sound. subst (λ (d : Db). All IsSound d.events) (sym (fetch-read w)) sound;
  dispatch = λ ev w copy sound.
      Tried-IsSound ev w.db (dispatch_one ev w).1.db (dispatch_one-Tried ev w) copy.ready sound;
}

-- However the calls of the database and the POSTs end, whenever the dispatcher wakes and however long
-- its rounds are: if the ids of the events are unique and every event is in a lawful state, then so it
-- is after RunDispatcher. A pending event has no failed attempt, a failed one has 1 to 4, a dispatched
-- one has at most 4, and an event is dead after exactly 5.
pub run_dispatcher-IsOrderly :
    (fuel : ℕ) (wakes : List Wake) (w : World)
    → IsOrderly w.db.events
    → IsOrderly (run_dispatcher fuel wakes w).db.events
run_dispatcher-IsOrderly fuel wakes w (unique, sound) =
    run_dispatcher-Keeps _ Keeps-IsSound (λ t w h. h) fuel wakes w unique sound
