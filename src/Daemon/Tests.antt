-- ===== src/Daemon/Tests.antt =====
-- The daemon on a small database, and the theorems there. Its database has one task, for two
-- clusters, and one event.
use mathlib.Core.List.Memᴰ
use secret_control_panel.Base.{
  nat_eq, list_beq, All, ok, ℕ, ◌≡◌, refl, sym, ◌∙◌, ◌≢◌, some, List, [], ◌∷◌, map, Memᴰ, arith,
}
use secret_control_panel.Text.{Str, str_eq}
use secret_control_panel.Daemon.Dispatcher.Finished.{IsFinal, run_dispatcher-IsFinal}
use secret_control_panel.Db.{EventRow, TaskRow}
use secret_control_panel.Db.World.{autocommit}
use secret_control_panel.Db.Samples.{east, west, task_row, event_row, busy_db, calm, shaky}
use secret_control_panel.Daemon.Store.{
  scan_event, agent_of, agent_endpoint, mark_dispatched, mark_failed,
}
use secret_control_panel.Daemon.Backoff.{backoff, backoff_ideal, backoff_lem}
use secret_control_panel.Daemon.Processor.{Resolver, drain_tasks}
use secret_control_panel.Daemon.Processor.Drained.{UniqueTasks, IsSafe, drain_tasks-IsSafe}
use secret_control_panel.Daemon.Processor.Total.{drain_tasks-total}
use secret_control_panel.Daemon.Dispatcher.{
  event_dispatched, will_retry, post_event, record_failure, deliver, dispatch_one,
}
use secret_control_panel.Daemon.Processor.{woken, context_done}
use secret_control_panel.Daemon.Dispatcher.{drain_pending, run_dispatcher}
use secret_control_panel.Daemon.Dispatcher.Lifecycle.{IsOrderly, run_dispatcher-IsOrderly}
use secret_control_panel.Daemon.Dispatcher.Draining.{IsDrained, drain_pending-IsDrained}
use secret_control_panel.Daemon.Processor.{run_processor}
use secret_control_panel.Daemon.Processor.Keyed.{run_processor-IsKeyed}
use secret_control_panel.Daemon.Store.Unique.{IsKeyed}
use secret_control_panel.Daemon.Dispatcher.Honoured.{run_dispatcher-IsReceived}
use secret_control_panel.Daemon.Dispatcher.Receipt.{IsReceived}
use secret_control_panel.Db.{pending, dispatched}

abbrev two_clusters : List Str
two_clusters = east ∷ west ∷ []

abbrev to_both : Resolver
to_both mount path = two_clusters

pending≢dispatched : pending ≢ dispatched
pending≢dispatched e = cc

busy-UniqueTasks : UniqueTasks busy_db.tasks
busy-UniqueTasks a b m k e = only a m ∙ sym (only b k)
  where
    only : (t : TaskRow) → Memᴰ t (task_row ∷ []) → t ≡ task_row
    only t (Memᴰ.head h) = h
    only t (Memᴰ.tail h) = absurd (Memᴰ.not-nil h)

drain_tasks-IsSafe_example :
    IsSafe to_both busy_db.tasks (drain_tasks 3 to_both (shaky busy_db)).1.db
drain_tasks-IsSafe_example = drain_tasks-IsSafe 3 to_both (shaky busy_db) busy-UniqueTasks

drain_tasks-total_example :
    ((drain_tasks 2 to_both (calm busy_db)).0 ≡ some (ok tt))
    × ((drain_tasks 2 to_both (calm busy_db)).1.db.tasks ≡ [])
drain_tasks-total_example = drain_tasks-total 2 to_both (calm busy_db) tt (omega arith)

backoff_lem_example : backoff 3 ≡ backoff_ideal 3
backoff_lem_example = backoff_lem 3

-- The event of cluster east is delivered.
delivered : (dispatch_one (scan_event event_row) (calm busy_db)).0 ≡ event_dispatched
unfolding dispatch_one agent_endpoint agent_of deliver post_event mark_dispatched autocommit
    list_beq
delivered = refl

-- Without an agent it waits for 2 seconds.
not_delivered :
    (dispatch_one (scan_event event_row) (calm (record busy_db { agents = [] }))).0
    ≡ will_retry 1 2_000_000_100
unfolding dispatch_one agent_endpoint agent_of record_failure mark_failed backoff autocommit
    list_beq
not_delivered = refl

busy-IsOrderly : IsOrderly busy_db.events
busy-IsOrderly = ((tt, tt), (refl, tt))

run_dispatcher-IsOrderly_example :
    IsOrderly (run_dispatcher 7 (woken 5 ∷ woken 9 ∷ context_done ∷ []) (shaky busy_db)).db.events
run_dispatcher-IsOrderly_example =
    run_dispatcher-IsOrderly 7 (woken 5 ∷ woken 9 ∷ context_done ∷ []) (shaky busy_db)
      busy-IsOrderly

drain_pending-IsDrained_example : IsDrained (drain_pending 7 (calm busy_db))
drain_pending-IsDrained_example = drain_pending-IsDrained 7 (calm busy_db) tt (tt, tt) (omega arith)

run_dispatcher-IsReceived_example :
    All
      (IsReceived busy_db.agents
        (run_dispatcher 7 (woken 5 ∷ woken 9 ∷ context_done ∷ []) (shaky busy_db)).posts)
      (run_dispatcher 7 (woken 5 ∷ woken 9 ∷ context_done ∷ []) (shaky busy_db)).db.events
run_dispatcher-IsReceived_example =
    run_dispatcher-IsReceived 7 (woken 5 ∷ woken 9 ∷ context_done ∷ []) (shaky busy_db)
      ((λ success. refl), tt) (tt, tt) ((λ e. absurd (pending≢dispatched e)), tt)

busy-IsKeyed : IsKeyed busy_db
busy-IsKeyed = record { ids = (tt, tt); bounded = (omega arith, tt); keys = (tt, tt) }

run_processor-IsKeyed_example :
    IsKeyed (run_processor 3 to_both (woken 1 ∷ woken 2 ∷ []) (shaky busy_db)).db
run_processor-IsKeyed_example =
    run_processor-IsKeyed to_both 3 (woken 1 ∷ woken 2 ∷ []) (shaky busy_db) busy-IsKeyed

-- A wait of six minutes.
abbrev long_wait : ℕ
long_wait = 360_000_000_000

-- The agent does not answer.
run_dispatcher-IsFinal_example :
    All
      (λ (e : EventRow). IsFinal e.status)
      (run_dispatcher 7
        (map woken (long_wait ∷ long_wait ∷ long_wait ∷ long_wait ∷ long_wait ∷ []))
        (record (calm busy_db) { answers = [] })).db.events
run_dispatcher-IsFinal_example =
    run_dispatcher-IsFinal 7 (long_wait ∷ long_wait ∷ long_wait ∷ long_wait ∷ long_wait ∷ [])
      (record (calm busy_db) { answers = [] }) tt busy-IsOrderly (omega arith, tt) (omega arith)
      refl (omega arith, (omega arith, (omega arith, (omega arith, (omega arith, tt)))))
