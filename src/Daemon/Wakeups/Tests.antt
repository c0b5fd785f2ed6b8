-- ===== src/Daemon/Wakeups/Tests.antt =====
-- The claims on the wakeups at concrete inputs: a daemon that connects, finds an empty inbox at its
-- first tick, and then has a task queued by the listener.
use secret_control_panel.Base.{
  nat_eq, length, ◌*◌, ◌≤◌, ◌≡◌, refl, ap, true, false, List, [], ◌∷◌, arith,
}
use secret_control_panel.Text.{codes, str_eq}
use secret_control_panel.Wire.{second}
use secret_control_panel.Db.{empty_db}
use secret_control_panel.Db.World.{statement, autocommit, transaction}
use secret_control_panel.Db.Samples.{update_to, calm}
use secret_control_panel.Sort.Insertion.{insertion_sort}
use secret_control_panel.Listener.{ingest, ingest_body, advance, insert_task_row, version_of}
use secret_control_panel.Daemon.Store.{fetch_tasks}
use secret_control_panel.Daemon.Processor.{Resolver}
use secret_control_panel.Daemon.Wakeups.{
  wake_capacity, offers, subscribe, subscribe_from, subscribe_once, Session, acquire_failed,
  listened, canceled, broken, Stop, never, in_wait, System, started, selecting, fetching, fetched,
  ingested, Own, fetch, Move, own, tick, queue, connect, Reaches, here, then_step,
}
use secret_control_panel.Daemon.Wakeups.Waits.{AreWaits, subscribe-AreWaits}
use secret_control_panel.Daemon.Wakeups.Attended.{IsAttended, reached-IsAttended}
use secret_control_panel.Daemon.Wakeups.Woken.{reached-drained}

abbrev to_one : Resolver
to_one mount path = codes "east" ∷ []

abbrev listening_daemon : System
listening_daemon = record (started (calm empty_db)) { listening = true }

abbrev ticked : System
ticked = record listening_daemon {
  world = record (calm empty_db) { clock = 110 };
  phase = fetching;
}

abbrev idle : System
idle = fetched ticked

abbrev notified_daemon : System
notified_daemon = ingested (update_to 3) idle

reached_notified : Reaches (Move to_one) (started (calm empty_db)) notified_daemon
reached_notified =
    then_step
      (then_step (then_step (then_step here (connect refl)) (tick 10 refl)) (own (fetch refl)))
      (queue (update_to 3))

reached-IsAttended_example : IsAttended notified_daemon
reached-IsAttended_example =
    reached-IsAttended to_one (calm empty_db) notified_daemon reached_notified

idle_is_idle : (idle.phase ≡ selecting) × (idle.missed ≡ false) × (idle.unread ≡ 0)
unfolding fetch_tasks autocommit insertion_sort
idle_is_idle = (refl, refl, refl)

notified_daemon_waits :
    (notified_daemon.phase ≡ selecting)
    × (notified_daemon.missed ≡ false)
    × (notified_daemon.unread ≡ 1)
unfolding fetch_tasks autocommit ingest ingest_body advance statement transaction version_of
    insert_task_row insertion_sort
notified_daemon_waits = (refl, refl, refl)

reached-drained_example :
    (t : System) × Reaches (Own to_one) notified_daemon t
    × (t.phase ≡ selecting)
    × (t.world.db.tasks ≡ [])
unfolding fetch_tasks autocommit ingest ingest_body advance statement transaction version_of
    insert_task_row insertion_sort
reached-drained_example =
    reached-drained to_one (calm empty_db) notified_daemon reached_notified refl refl
      (λ none_wait. absurd (omega (arith, ap length none_wait))) tt

abbrev flaky : List (Session × Stop)
flaky =
    (acquire_failed (codes "no pool"), never)
    ∷ (listened 3 (broken (codes "reset")), never)
    ∷ (listened 0 canceled, in_wait)
    ∷ []

flaky_waits : subscribe flaky 0 ≡ (second ∷ 2 * second ∷ 4 * second ∷ [], 1)
unfolding subscribe subscribe_from subscribe_once offers
flaky_waits = refl

subscribe-AreWaits_example :
    AreWaits 0 (subscribe flaky 0).0 × ((subscribe flaky 0).1 ≤ wake_capacity)
subscribe-AreWaits_example = subscribe-AreWaits flaky 0 (omega arith)
