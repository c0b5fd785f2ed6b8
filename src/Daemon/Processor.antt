-- ===== src/Daemon/Processor.antt =====
-- internal/scp/daemon/processor.go
pub mod Drained
pub mod Total
pub mod Keyed
use secret_control_panel.Base.{
  ltb, leb, nat_beq, if◌then◌else◌, leb_iff, nat_beq_iff, Bool-cases, Option-cases, is_some, ◌==◌,
  ◌!=◌, nat_eq, eq_iff, eq_refl, ne_of_beq, beq_of_ne, list_beq, list_beq_iff, Eq, length, take,
  any, all, filter, find?, All, length-append, All-append, All-mem, All-of-mem, All-perm, mem-perm,
  pos_part, neg_part, ◌≤ℤ◌, leb_ℤ, ℤ, pos, negsuc, ◌>>=◌, ◌>>◌, >>=-ok, Result, ok, err, ℕ, zero,
  suc, ◌+◌, ◌-◌, ◌*◌, ◌%◌, ◌^◌, ◌≤◌, ◌<◌, min, max, ◌≡◌, refl, sym, ap, subst, ◌∙◌, ◌≢◌, ◌↔◌, ◌⊎◌,
  inl, inr, Bool, true, false, false≢true, not, ◌&&◌, ◌||◌, Option, none, some, List, [], ◌∷◌, ◌++◌,
  map, reverse, Memᴰ, Permᴰ, le_antisymm, le_trans, le_refl, arith,
}
use secret_control_panel.Text.{Str}
use secret_control_panel.Db.World.{World, Error, M}
use secret_control_panel.Daemon.Store.{Task, fetch_tasks, fanout_task}

abbrev pub batch_size : ℕ
batch_size = 100

-- The interface Resolver: the clusters of (mount, path).
abbrev pub Resolver : Type 0
Resolver = Str → Str → List Str

-- What the loop logs of a task.
pub data TaskLog : Type 0 where
  fanout_failed : ℕ → Error → TaskLog
  task_dropped : ℕ → TaskLog
  task_fanned_out : ℕ → List Str → TaskLog

abbrev task_log : ℕ → List Str → Result Error (Unit {0}) → TaskLog
task_log id clusters (err e) = fanout_failed id e
task_log id clusters (ok _) =
    if length clusters == 0 then task_dropped id else task_fanned_out id clusters

-- The inner loop of drainTasks: a task whose fanout fails is logged and left for the next round.
unfoldable pub process_batch : Resolver → List Task → World → List TaskLog × World
process_batch resolver [] w = ([], w)
process_batch resolver (t ∷ tasks) w =
    let clusters = resolver t.event.mount t.event.path in
    let (r, w') = fanout_task t.id t.event clusters w in
    let (logs, w'') = process_batch resolver tasks w' in (task_log t.id clusters r ∷ logs, w'')

-- drainTasks. The loop has no bound of its own: `none` means that the fuel has run out.
unfoldable pub drain_tasks : ℕ → Resolver → World → Option (Result Error (Unit {0})) × World
drain_tasks zero resolver w = (none, w)
drain_tasks (suc fuel) resolver w =
    let (r, w') = fetch_tasks batch_size w in
    elim r [
      | err e ↦ (some (err e), w')
      | ok [] ↦ (some (ok tt), w')
      | ok (t ∷ tasks) ↦ drain_tasks fuel resolver (process_batch resolver (t ∷ tasks) w').1
    ]

-- What wakes the loop of RunProcessor or RunDispatcher: a notification or the ticker, some time
-- after the last round, or the end of the context.
pub data Wake : Type 0 where
  woken : ℕ → Wake
  context_done : Wake

-- The world when time has passed.
abbrev pub pass : ℕ → World → World
pass t w = record w { clock = w.clock + t }

-- RunProcessor: an error of a round is logged, and the loop goes on.
unfoldable pub run_processor : ℕ → Resolver → List Wake → World → World
run_processor fuel resolver [] w = w
run_processor fuel resolver (context_done ∷ wakes) w = w
run_processor fuel resolver (woken t ∷ wakes) w =
    run_processor fuel resolver wakes (drain_tasks fuel resolver (pass t w)).1
