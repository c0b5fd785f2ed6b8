-- ===== src/Daemon/Dispatcher/Waiting.antt =====
-- The times at which the retries fall due, against the clock.
use secret_control_panel.Base.{
  nat_eq, All, All-mem, All-of-mem, ℕ, ◌+◌, ◌≤◌, ◌≡◌, refl, sym, subst, ◌⊎◌, inl, inr, Option, none,
  some, List, arith,
}
use secret_control_panel.Text.{Str}
use secret_control_panel.Wire.{Time}
use secret_control_panel.Db.{Db, EventRow}
use secret_control_panel.Db.World.{
  World, Error, autocommit, select_pending, select_agent, mark_failed_failed,
  mark_dispatched_failed,
}
use secret_control_panel.Db.Steps.{autocommit-read, autocommit_cases}
use secret_control_panel.Daemon.Store.{
  PendingEvent, fetch_pending, agent_endpoint, mark_failed, mark_dispatched, update_event,
  set_dispatched,
}
use secret_control_panel.Daemon.Backoff.{max_backoff, backoff, backoff_bounds}
use secret_control_panel.Daemon.Processor.{batch_size}
use secret_control_panel.Daemon.Dispatcher.{post_event, record_failure, dispatch_one}
use secret_control_panel.Daemon.Dispatcher.Rows.{fail_once, deliver_rule, dispatch_rule}
use secret_control_panel.Daemon.Dispatcher.Ready.{All-update}
use secret_control_panel.Daemon.Dispatcher.Keeps.{Keeps}

abbrev pub retry_by : Option Time → ℕ
retry_by none = 0
retry_by (some at) = at

-- No retry is later than the longest backoff from `now`.
abbrev pub IsSoon : ℕ → List EventRow → Type 0
IsSoon now = All (λ (e : EventRow). retry_by e.next_retry_at ≤ now + max_backoff)

pub IsSoon-later :
    (now now' : ℕ) (events : List EventRow) → now ≤ now' → IsSoon now events → IsSoon now' events
IsSoon-later now now' events le h =
    All-of-mem _ events (λ e m. let soon = All-mem _ h m in omega arith)

-- Time has passed since `start`, and the retries are soon.
abbrev pub IsWaiting : ℕ → World → Type 0
IsWaiting start w = (start ≤ w.clock) × IsSoon w.clock w.db.events

autocommit-clock :
    {A : Type 0} (e : Error) (f : Time → Db → A × Db) (w : World)
    → w.clock ≤ (autocommit e f w).1.clock
unfolding autocommit
autocommit-clock e f w = ground arith

module _ (start : ℕ) where
  -- A step that changes the rows by an update, or not at all.
  updated-IsWaiting :
      (id : ℕ) (f : EventRow → EventRow) (w v : World)
      → w.clock ≤ v.clock
      → (v.db ≡ w.db) ⊎ (v.db ≡ record w.db { events = update_event id f w.db.events })
      → ((e : EventRow)
          → retry_by e.next_retry_at ≤ v.clock + max_backoff
          → retry_by (f e).next_retry_at ≤ v.clock + max_backoff)
      → IsWaiting start w
      → IsWaiting start v
  updated-IsWaiting id f w v le (inl e) keep (since, soon) = (
    omega (arith, since, le),
    subst (λ (d : Db). IsSoon v.clock d.events) (sym e)
        (IsSoon-later w.clock v.clock w.db.events le soon),
  )
  updated-IsWaiting id f w v le (inr e) keep (since, soon) =
      let later = IsSoon-later w.clock v.clock w.db.events le soon in
      (
        omega (arith, since, le),
        subst (λ (d : Db). IsSoon v.clock d.events) (sym e)
            (All-update id f _ w.db.events (
              All-of-mem _ w.db.events
                (λ r m. (λ hit. keep r (All-mem _ later m), λ miss. All-mem _ later m)))),
      )

  module _ (ev : PendingEvent) where
    failure-IsWaiting : (w : World) → IsWaiting start w → IsWaiting start (record_failure ev w).1
    unfolding record_failure mark_failed
    failure-IsWaiting w h =
        let le = autocommit-clock mark_failed_failed _ w in
        let bound = (backoff_bounds (ev.attempts + 1)).1 in
        updated-IsWaiting ev.id (fail_once ev (w.clock + backoff (ev.attempts + 1))) w
          (record_failure ev w).1 le (autocommit_cases mark_failed_failed _ w)
          (λ r k. omega (arith, le, bound)) h

    success-IsWaiting :
        (w : World) → IsWaiting start w → IsWaiting start (mark_dispatched ev.id w).1
    unfolding mark_dispatched
    success-IsWaiting w h =
        updated-IsWaiting ev.id (set_dispatched _) w (mark_dispatched ev.id w).1
          (autocommit-clock mark_dispatched_failed _ w)
          (autocommit_cases mark_dispatched_failed _ w) (λ r k. k) h

    lookup-IsWaiting :
        (w : World) → IsWaiting start w → IsWaiting start (agent_endpoint ev.cluster w).1
    unfolding agent_endpoint
    lookup-IsWaiting w h =
        updated-IsWaiting 0 (λ e. e) w (agent_endpoint ev.cluster w).1
          (autocommit-clock select_agent _ w) (inl (autocommit-read select_agent _ w)) (λ r k. k) h

    post-IsWaiting :
        (url token : Str) (w : World)
        → IsWaiting start w
        → IsWaiting start (post_event url token ev.event w).1
    unfolding post_event
    post-IsWaiting url token w h =
        updated-IsWaiting 0 (λ e. e) w (post_event url token ev.event w).1 (omega arith) (inl refl)
          (λ r k. k) h

    dispatch_one-IsWaiting : (w : World) → IsWaiting start w → IsWaiting start (dispatch_one ev w).1
    dispatch_one-IsWaiting w h =
        let w' = (agent_endpoint ev.cluster w).1 in
        let h' = lookup-IsWaiting w h in
        dispatch_rule ev (IsWaiting start) w (λ e k. h') (failure-IsWaiting w' h')
          (λ url token.
            let posted = (post_event url token ev.event w').1 in
            let p = post-IsWaiting url token w' h' in
            deliver_rule ev (IsWaiting start) url token w' (failure-IsWaiting posted p)
              (success-IsWaiting posted p))

  fetch-IsWaiting : (w : World) → IsWaiting start w → IsWaiting start (fetch_pending batch_size w).1
  unfolding fetch_pending
  fetch-IsWaiting w h =
      updated-IsWaiting 0 (λ e. e) w (fetch_pending batch_size w).1
        (autocommit-clock select_pending _ w) (inl (autocommit-read select_pending _ w)) (λ r k. k)
        h

  pub Keeps-IsWaiting : Keeps (IsWaiting start)
  Keeps-IsWaiting = record {
    fetch = fetch-IsWaiting;
    dispatch = λ ev w copy h. dispatch_one-IsWaiting ev w h;
  }
