-- ===== src/Pipeline.antt =====
-- The way of a change through the panel: Ingest of internal/scp/listener/store.go, drainTasks of
-- internal/scp/daemon/processor.go and drainPending of dispatcher.go, one after another.
use mathlib.Core.List.Memᴰ
use secret_control_panel.Base.{
  ltb, leb, nat_beq, if◌then◌else◌, leb_iff, nat_beq_iff, Bool-cases, Option-cases, is_some, ◌==◌,
  ◌!=◌, nat_eq, eq_iff, eq_refl, ne_of_beq, beq_of_ne, list_beq, list_beq_iff, Eq, length, take,
  any, all, filter, find?, All, length-append, All-append, All-mem, All-of-mem, All-perm, mem-perm,
  All-take, All-map, mem-filter, mem_of-filter, length-filter-le, length-filter-lt, length-perm,
  length-map, mem_last, mem_appended, pos_part, neg_part, ◌≤ℤ◌, leb_ℤ, ℤ, pos, negsuc, ◌>>=◌, ◌>>◌,
  >>=-ok, Result, ok, err, Pairs, Pairs-take, Pairs-filter, Pairs-perm, Pairs-map, Pairs-of-map,
  Pairs-eq, Pairs-append-one, ℕ, zero, suc, ◌+◌, ◌-◌, ◌*◌, ◌%◌, ◌^◌, ◌≤◌, ◌<◌, min, max, ◌≡◌, refl,
  sym, ap, subst, ◌∙◌, ◌≢◌, ◌↔◌, ◌⊎◌, inl, inr, Bool, true, false, false≢true, not, ◌&&◌, ◌||◌,
  Option, none, some, List, [], ◌∷◌, ◌++◌, map, reverse, Memᴰ, Permᴰ, le_antisymm, le_trans,
  le_refl, arith,
}
use secret_control_panel.Text.{Str, str_eq}
use secret_control_panel.Wire.{Time, SecretEvent}
use secret_control_panel.Db.{Db, TaskRow, EventRow, Status, pending}
use secret_control_panel.Db.World.{World, Error, after_call}
use secret_control_panel.Db.Smooth.{Smooth}
use secret_control_panel.Listener.{IngestResult, is_old, has_task, ingest}
use secret_control_panel.Listener.Outcomes.{Outcome, stale, duplicate, queued, task_of, IsNewer}
use secret_control_panel.Listener.Atomic.{ingest-Succeeds, ingest-total}
use secret_control_panel.Daemon.Store.{is_for, is_due}
use secret_control_panel.Daemon.Store.Inserts.{has_event}
use secret_control_panel.Daemon.Store.Unique.{IsKeyed}
use secret_control_panel.Daemon.Processor.{Resolver, drain_tasks}
use secret_control_panel.Daemon.Processor.Drained.{Covered, UniqueTasks}
use secret_control_panel.Daemon.Processor.Total.{drain_tasks-Smooth, drain_tasks-Covered}
use secret_control_panel.Daemon.Processor.Keyed.{drain_tasks-IsKeyed}
use secret_control_panel.Daemon.Dispatcher.{drain_pending}
use secret_control_panel.Daemon.Dispatcher.Ready.{UniqueEvents}
use secret_control_panel.Daemon.Dispatcher.Rounds.{all_rounds}
use secret_control_panel.Daemon.Dispatcher.Draining.{not-pending, drain_pending-IsDrained}
use secret_control_panel.Daemon.Dispatcher.Keeping.{drain_pending-has_event}
pub mod Carrying
pub mod Carried
pub mod Delivered
pub mod Attempted
pub mod Tests

-- The ids of both tables are unique and below their sequences.
pub record IsNumbered (db : Db) : Type 0 where
  pub task_ids : Pairs (λ (a : TaskRow) (b : TaskRow). a.id ≢ b.id) db.tasks
  pub tasks_below : All (λ (t : TaskRow). t.id < db.next_task_id) db.tasks
  pub events : IsKeyed db

-- A new change, as Ingest leaves it.
record IsQueued (ev : SecretEvent) (now : Time) (old new : Db) : Type 0 where
  there : Memᴰ (task_of now ev old.next_task_id) new.tasks
  unique : UniqueTasks new.tasks
  keyed : IsKeyed new

Outcome-IsQueued :
    (ev : SecretEvent) (now : Time) (old new : Db) {r : IngestResult}
    → IsNumbered old
    → IsNewer ev old
    → has_task ev.request_id old.tasks ≡ false
    → Outcome now ev old new r
    → IsQueued ev now old new
Outcome-IsQueued ev now old new n newer missing (stale stored is_stored le e) =
    let known = subst (λ o. is_old o ev ≡ false) is_stored newer in absurd (ground arith)
Outcome-IsQueued ev now old new n newer missing (duplicate newer' found e) = absurd (ground arith)
Outcome-IsQueued ev now old new n newer missing (queued newer' missing' e) =
    subst (IsQueued ev now old) (sym e) (record {
      there = mem_last old.tasks row;
      unique =
          Pairs-eq (λ (t : TaskRow). t.id) (old.tasks ++ row ∷ [])
            (Pairs-append-one (λ (a : TaskRow) (b : TaskRow). a.id ≢ b.id) old.tasks row n.task_ids
              (All-of-mem _ old.tasks
                (λ t m. let below = All-mem _ n.tasks_below m in omega arith)));
      keyed = record { ids = n.events.ids; bounded = n.events.bounded; keys = n.events.keys };
    })
  where
    row : TaskRow
    row = task_of now ev old.next_task_id

-- The row behind `has_event`.
found_row :
    (request_id cluster : Str) (events : List EventRow)
    → has_event request_id cluster events ≡ true
    → (e : EventRow) × Memᴰ e events × (e.request_id ≡ request_id) × (e.cluster ≡ cluster)
found_row r c [] h = absurd (false≢true h)
found_row r c (e ∷ events) h = elim (Bool-cases (is_for r c e)) [
  | inl hit ↦ (
    e,
    Memᴰ.head refl,
    (eq_iff e.request_id r).0 (ground arith),
    (eq_iff e.cluster c).0 (ground arith),
  )
  | inr miss ↦
      let (q, m, same_request, same_cluster) = found_row r c events (ground arith) in
      (q, Memᴰ.tail m, same_request, same_cluster)
]

module _ (resolver : Resolver) (ev : SecretEvent) (w : World) (f g : ℕ) where
  abbrev pub queued_world : World
  queued_world = (ingest ev w).1

  abbrev pub fanned_world : World
  fanned_world = (drain_tasks f resolver queued_world).1

  abbrev pub drained_world : World
  drained_world = (drain_pending g fanned_world).1
