-- ===== src/Daemon/Processor/Total.antt =====
-- drainTasks ends: where no call of the database fails, it empties the inbox.
use mathlib.Core.List.Permᴰ
use mathlib.Core.List.Memᴰ
use secret_control_panel.Base.{
  ltb, ◌==◌, nat_eq, eq_refl, length, take, mem-perm, length-filter-le, length-filter-lt, Result,
  ok, err, ℕ, zero, suc, ◌≤◌, ◌<◌, ◌≡◌, refl, sym, ap, subst, ◌∙◌, ◌⊎◌, inl, inr, Bool, not, some,
  List, [], ◌∷◌, map, Memᴰ, Permᴰ, arith,
}
use secret_control_panel.Db.{Db, TaskRow}
use secret_control_panel.Db.World.{World, Error, select_tasks}
use secret_control_panel.Db.Steps.{autocommit-read, autocommit-ok}
use secret_control_panel.Db.Smooth.{Smooth, Succeeds, Succeeds-autocommit}
use secret_control_panel.Sort.Insertion.{insertion_sort, insertion_sort-perm}
use secret_control_panel.Daemon.Store.{Task, scan_task, remove_task, fetch_tasks, fanout_task}
use secret_control_panel.Daemon.Store.Fanout.{fanout-FannedOut, fanout-Succeeds}
use secret_control_panel.Daemon.Processor.{Resolver, batch_size, process_batch, drain_tasks}
use secret_control_panel.Daemon.Processor.Drained.{Covered, UniqueTasks, drain_tasks-IsSafe}

by_id : TaskRow → TaskRow → Bool
by_id a b = ltb a.id b.id

fetch_tasks-Succeeds : (limit : ℕ) → Succeeds (fetch_tasks limit)
unfolding fetch_tasks
fetch_tasks-Succeeds limit = Succeeds-autocommit select_tasks _

module _ (resolver : Resolver) where
  fan : Task → World → World
  fan b w = (fanout_task b.id b.event (resolver b.event.mount b.event.path) w).1

  fan-tasks : (b : Task) (w : World) → Smooth w → (fan b w).db.tasks ≡ remove_task b.id w.db.tasks
  unfolding fan
  fan-tasks b w s =
      let clusters = resolver b.event.mount b.event.path in
      let (_, done_well) = (fanout-Succeeds b.id b.event clusters).result w s in
      (fanout-FannedOut b.id b.event clusters w done_well).tasks

  fan-Smooth : (b : Task) (w : World) → Smooth w → Smooth (fan b w)
  unfolding fan
  fan-Smooth b w s = (fanout-Succeeds b.id b.event (resolver b.event.mount b.event.path)).smooth w s

  batch-Smooth :
      (batch : List Task) (w : World) → Smooth w → Smooth (process_batch resolver batch w).1
  unfolding process_batch fan
  batch-Smooth [] w s = s
  batch-Smooth (b ∷ batch) w s = batch-Smooth batch (fan b w) (fan-Smooth b w s)

  batch-le :
      (batch : List Task) (w : World)
      → Smooth w
      → length (process_batch resolver batch w).1.db.tasks ≤ length w.db.tasks
  unfolding process_batch fan
  batch-le [] w s = omega arith
  batch-le (b ∷ batch) w s = omega (
    arith,
    batch-le batch (fan b w) (fan-Smooth b w s),
    ap length (fan-tasks b w s),
    length-filter-le (λ (t : TaskRow). not (t.id == b.id)) w.db.tasks,
  )

  -- A batch whose first task is in the inbox makes the inbox shorter.
  batch-lt :
      (b : Task) (batch : List Task) (w : World)
      → Smooth w
      → (r : TaskRow) → Memᴰ r w.db.tasks
      → r.id ≡ b.id
      → length (process_batch resolver (b ∷ batch) w).1.db.tasks < length w.db.tasks
  unfolding process_batch fan
  batch-lt b batch w s r m e = omega (
    arith,
    batch-le batch (fan b w) (fan-Smooth b w s),
    ap length (fan-tasks b w s),
    length-filter-lt (λ (t : TaskRow). not (t.id == b.id)) w.db.tasks m (rw (e, eq_refl b.id)),
  )

first_row :
    (w : World) (b : Task) (batch : List Task)
    → (fetch_tasks batch_size w).0 ≡ ok (b ∷ batch)
    → (r : TaskRow) × Memᴰ r w.db.tasks × (r.id ≡ b.id)
unfolding fetch_tasks by_id
first_row w b batch h =
    first (insertion_sort by_id w.db.tasks) (insertion_sort-perm by_id w.db.tasks)
      (autocommit-ok select_tasks _ w h).0
  where
    first :
        (sorted : List TaskRow)
        → Permᴰ w.db.tasks sorted
        → b ∷ batch ≡ map scan_task (take batch_size sorted)
        → (r : TaskRow) × Memᴰ r w.db.tasks × (r.id ≡ b.id)
    first [] p e = absurd (ground arith)
    first (r ∷ rest) p e = (r, mem-perm (Permᴰ.symm p) (Memᴰ.head refl), ground arith)

pub fetched-db : (w : World) → (fetch_tasks batch_size w).1.db ≡ w.db
unfolding fetch_tasks
fetched-db w = autocommit-read select_tasks _ w

pub no_rows : (w : World) → (fetch_tasks batch_size w).0 ≡ ok [] → w.db.tasks ≡ []
unfolding fetch_tasks by_id
no_rows w h =
    empty w.db.tasks (insertion_sort by_id w.db.tasks) (insertion_sort-perm by_id w.db.tasks)
      (autocommit-ok select_tasks _ w h).0
  where
    empty :
        (tasks sorted : List TaskRow)
        → Permᴰ tasks sorted
        → [] ≡ map scan_task (take batch_size sorted)
        → tasks ≡ []
    empty [] sorted p e = refl
    empty (t ∷ tasks) [] p e = absurd (Memᴰ.not-nil (mem-perm p (Memᴰ.head refl)))
    empty (t ∷ tasks) (r ∷ rest) p e = absurd (ground arith)

-- Without failing calls drainTasks leaves none behind.
pub drain_tasks-Smooth :
    (fuel : ℕ) (resolver : Resolver) (w : World) → Smooth w → Smooth (drain_tasks fuel resolver w).1
unfolding drain_tasks
drain_tasks-Smooth zero resolver w s = s
drain_tasks-Smooth (suc fuel) resolver w s =
    by_batch (fetch_tasks batch_size w).0 refl (drain_tasks-Smooth fuel resolver)
  where
    s' : Smooth (fetch_tasks batch_size w).1
    s' = (fetch_tasks-Succeeds batch_size).smooth w s

    by_batch :
        (o : Result Error (List Task))
        → (fetch_tasks batch_size w).0 ≡ o
        → ((v : World) → Smooth v → Smooth (drain_tasks fuel resolver v).1)
        → Smooth (drain_tasks (suc fuel) resolver w).1
    by_batch (err e) k later = rw (k, drain_tasks) s'
    by_batch (ok []) k later = rw (k, drain_tasks) s'
    by_batch (ok (b ∷ batch)) k later =
        rw (k, drain_tasks)
          (later (process_batch resolver (b ∷ batch) (fetch_tasks batch_size w).1).1
            (batch-Smooth resolver (b ∷ batch) (fetch_tasks batch_size w).1 s'))

-- Where no call of the database fails, drainTasks ends within as many rounds as there are tasks, and
-- one more, without an error, and leaves an empty inbox.
pub drain_tasks-total :
    (fuel : ℕ) (resolver : Resolver) (w : World)
    → Smooth w
    → length w.db.tasks < fuel
    → ((drain_tasks fuel resolver w).0 ≡ some (ok tt))
      × ((drain_tasks fuel resolver w).1.db.tasks ≡ [])
unfolding drain_tasks
drain_tasks-total zero resolver w s h = absurd (omega arith)
drain_tasks-total (suc fuel) resolver w s h =
    by_batch (fetch_tasks batch_size w).0 refl (drain_tasks-total fuel resolver)
  where
    w' : World
    w' = (fetch_tasks batch_size w).1

    read : w'.db ≡ w.db
    read = fetched-db w

    s' : Smooth w'
    s' = (fetch_tasks-Succeeds batch_size).smooth w s

    by_batch :
        (o : Result Error (List Task))
        → (fetch_tasks batch_size w).0 ≡ o
        → ((v : World)
            → Smooth v
            → length v.db.tasks < fuel
            → ((drain_tasks fuel resolver v).0 ≡ some (ok tt))
              × ((drain_tasks fuel resolver v).1.db.tasks ≡ []))
        → ((drain_tasks (suc fuel) resolver w).0 ≡ some (ok tt))
          × ((drain_tasks (suc fuel) resolver w).1.db.tasks ≡ [])
    by_batch (err e) k later =
        let (a, good) = (fetch_tasks-Succeeds batch_size).result w s in cc (good, k)
    by_batch (ok []) k later =
        rw (k, drain_tasks) (refl, ap (λ (d : Db). d.tasks) read ∙ no_rows w k)
    by_batch (ok (b ∷ batch)) k later =
        let (r, m, e) = first_row w b batch k in
        let shorter =
          batch-lt resolver b batch w' s' r (subst (λ (d : Db). Memᴰ r d.tasks) (sym read) m) e in
        let v = (process_batch resolver (b ∷ batch) w').1 in
        rw (k, drain_tasks)
          (later v (batch-Smooth resolver (b ∷ batch) w' s')
            (omega (arith, shorter, ap (λ (d : Db). length d.tasks) read)))

-- Where no call of the database fails, task ids are unique and the fuel exceeds the number of tasks,
-- every cluster that the resolver names for a task of the inbox has an event of the task's request
-- after drainTasks.
pub drain_tasks-Covered :
    (fuel : ℕ) (resolver : Resolver) (w : World)
    → Smooth w
    → UniqueTasks w.db.tasks
    → length w.db.tasks < fuel
    → (t : TaskRow) → Memᴰ t w.db.tasks
    → Covered resolver t (drain_tasks fuel resolver w).1.db.events
drain_tasks-Covered fuel resolver w s unique h t m =
    gone ((drain_tasks-IsSafe fuel resolver w unique).kept t m)
  where
    final : Db
    final = (drain_tasks fuel resolver w).1.db

    gone : Memᴰ t final.tasks ⊎ Covered resolver t final.events → Covered resolver t final.events
    gone (inl there) =
        absurd (Memᴰ.not-nil (subst (Memᴰ t) (drain_tasks-total fuel resolver w s h).1 there))
    gone (inr c) = c
