-- ===== src/Daemon/Processor/Drained.antt =====
-- The processor loses no task, whichever calls of the database fail.
use secret_control_panel.Base.{
  ltb, Bool-cases, ◌==◌, nat_eq, eq_iff, take, All, All-of-mem, All-perm, All-take, All-map,
  mem-filter, mem_of-filter, Result, ok, err, ℕ, zero, suc, ◌≡◌, refl, sym, ap, subst, ◌⊎◌, inl,
  inr, true, not, List, [], ◌∷◌, ◌++◌, map, Memᴰ,
}
use secret_control_panel.Text.{Str, str_eq}
use secret_control_panel.Db.{Db, TaskRow, EventRow, rollback}
use secret_control_panel.Db.World.{World, Error, after_call, select_tasks}
use secret_control_panel.Db.Steps.{autocommit-read, autocommit-ok}
use secret_control_panel.Sort.Insertion.{insertion_sort, insertion_sort-perm}
use secret_control_panel.Daemon.Store.{Task, scan_task, fetch_tasks, fanout_task}
use secret_control_panel.Daemon.Store.Inserts.{has_event, any-append}
use secret_control_panel.Daemon.Store.Fanout.{FannedOut, fanout_atomic}
use secret_control_panel.Daemon.Processor.{Resolver, batch_size, process_batch, drain_tasks}

-- Every cluster that the resolver names for the task has an event of the task's request.
abbrev pub Covered : Resolver → TaskRow → List EventRow → Type 0
Covered resolver t events =
    All (λ c. has_event t.request_id c events ≡ true) (resolver t.mount t.path)

-- Task ids are unique, as a primary key is.
abbrev pub UniqueTasks : List TaskRow → Type 0
UniqueTasks tasks = (a b : TaskRow) → Memᴰ a tasks → Memᴰ b tasks → a.id ≡ b.id → a ≡ b

-- Compared with the inbox `tasks` from before: no task is new, and each is still there or has its
-- events.
pub record IsSafe (resolver : Resolver) (tasks : List TaskRow) (db : Db) : Type 0 where
  pub no_new : (t : TaskRow) → Memᴰ t db.tasks → Memᴰ t tasks
  pub kept : (t : TaskRow) → Memᴰ t tasks → Memᴰ t db.tasks ⊎ Covered resolver t db.events

Covered-append :
    (request_id : Str) (cs : List Str) (events added : List EventRow)
    → All (λ c. has_event request_id c events ≡ true) cs
    → All (λ c. has_event request_id c (events ++ added) ≡ true) cs
Covered-append r [] es added h = tt
Covered-append r (c ∷ cs) es added h =
    (rw (any-append _ es added, h.0), Covered-append r cs es added h.1)

module _ (resolver : Resolver) (tasks : List TaskRow) where
  same_tables :
      (old new : Db)
      → new.tasks ≡ old.tasks
      → new.events ≡ old.events
      → IsSafe resolver tasks old
      → IsSafe resolver tasks new
  same_tables old new et ee s = record {
    no_new = λ t m. s.no_new t (subst (Memᴰ t) et m);
    kept = λ t m.
        subst (λ ts. Memᴰ t ts ⊎ Covered resolver t new.events) (sym et)
          (subst (λ es. Memᴰ t old.tasks ⊎ Covered resolver t es) (sym ee) (s.kept t m));
  }

  -- A fanout of a task of the inbox keeps the rest and covers that task.
  fanned-IsSafe :
      UniqueTasks tasks
      → (now : ℕ) (r : TaskRow) → Memᴰ r tasks
      → (old new : Db) → FannedOut now r.id (scan_task r).event (resolver r.mount r.path) old new
      → IsSafe resolver tasks old
      → IsSafe resolver tasks new
  fanned-IsSafe unique now r m old new f s = record {
    no_new = λ t k.
        s.no_new t (mem_of-filter (λ x. not (x.id == r.id)) old.tasks (subst (Memᴰ t) f.tasks k)).0;
    kept = λ t k. keep t k (s.kept t k);
  }
    where
      keep :
          (t : TaskRow)
          → Memᴰ t tasks
          → Memᴰ t old.tasks ⊎ Covered resolver t old.events
          → Memᴰ t new.tasks ⊎ Covered resolver t new.events
      keep t k (inr c) = inr (
          subst (Covered resolver t) (sym f.events)
            (Covered-append t.request_id (resolver t.mount t.path) old.events f.added c))
      keep t k (inl there) = elim (Bool-cases (t.id == r.id)) [
        | inl e ↦ inr (
            subst (λ q. Covered resolver q new.events)
              (unique r t m k (sym ((eq_iff t.id r.id).0 e))) f.covered)
        | inr e ↦ inl (
            subst (Memᴰ t) (sym f.tasks)
              (mem-filter (λ x. not (x.id == r.id)) old.tasks there (rw e)))
      ]

  -- The tasks of a batch are rows of the inbox.
  abbrev pub IsFrom : Task → Type 0
  IsFrom b = (r : TaskRow) × Memᴰ r tasks × (b ≡ scan_task r)

  module _ (unique : UniqueTasks tasks) where
    one-IsSafe :
        (b : Task) (w : World)
        → IsFrom b
        → IsSafe resolver tasks w.db
        → IsSafe resolver tasks
            (fanout_task b.id b.event (resolver b.event.mount b.event.path) w).1.db
    one-IsSafe b w (r, m, e) s =
        subst
          (λ (t : Task).
            IsSafe resolver tasks
              (fanout_task t.id t.event (resolver t.event.mount t.event.path) w).1.db)
          (sym e)
          (elim (fanout_atomic r.id (scan_task r).event (resolver r.mount r.path) w) [
            | inl same ↦
                same_tables w.db _ (unfold rollback in ap (λ (d : Db). d.tasks) same)
                  (unfold rollback in ap (λ (d : Db). d.events) same) s
            | inr f ↦ fanned-IsSafe unique (after_call w).clock r m w.db _ f s
          ])

    batch-IsSafe :
        (batch : List Task) (w : World)
        → All IsFrom batch
        → IsSafe resolver tasks w.db
        → IsSafe resolver tasks (process_batch resolver batch w).1.db
    unfolding process_batch
    batch-IsSafe [] w from s = s
    batch-IsSafe (b ∷ batch) w from s = batch-IsSafe batch _ from.1 (one-IsSafe b w from.0 s)

    fetched-IsFrom :
        (w : World) (batch : List Task)
        → IsSafe resolver tasks w.db
        → (fetch_tasks batch_size w).0 ≡ ok batch
        → All IsFrom batch
    unfolding fetch_tasks
    fetched-IsFrom w batch s h = subst (All IsFrom) (sym (autocommit-ok select_tasks _ w h).0) rows
      where
        sorted : List TaskRow
        sorted = insertion_sort (λ a b. ltb a.id b.id) w.db.tasks

        rows : All IsFrom (map scan_task (take batch_size sorted))
        rows = All-map IsFrom scan_task (take batch_size sorted) (
            All-take (λ r. IsFrom (scan_task r)) batch_size sorted
              (All-perm (λ r. IsFrom (scan_task r))
                (insertion_sort-perm (λ a b. ltb a.id b.id) w.db.tasks)
                (All-of-mem (λ r. IsFrom (scan_task r)) w.db.tasks
                  (λ r m. (r, s.no_new r m, refl)))))

    drain-IsSafe :
        (fuel : ℕ) (w : World)
        → IsSafe resolver tasks w.db
        → IsSafe resolver tasks (drain_tasks fuel resolver w).1.db
    unfolding drain_tasks
    drain-IsSafe zero w s = s
    drain-IsSafe (suc fuel) w s = by_batch (fetch_tasks batch_size w).0 refl (drain-IsSafe fuel)
      where
        w' : World
        w' = (fetch_tasks batch_size w).1

        fetched : IsSafe resolver tasks w'.db
        fetched =
            unfold fetch_tasks in
            subst (IsSafe resolver tasks) (sym (autocommit-read select_tasks _ w)) s

        by_batch :
            (o : Result Error (List Task))
            → (fetch_tasks batch_size w).0 ≡ o
            → ((v : World)
                → IsSafe resolver tasks v.db
                → IsSafe resolver tasks (drain_tasks fuel resolver v).1.db)
            → IsSafe resolver tasks (drain_tasks (suc fuel) resolver w).1.db
        by_batch (err e) h later = rw (h, drain_tasks) fetched
        by_batch (ok []) h later = rw (h, drain_tasks) fetched
        by_batch (ok (b ∷ batch)) h later =
            rw (h, drain_tasks)
              (later (process_batch resolver (b ∷ batch) w').1
                (batch-IsSafe (b ∷ batch) w' (fetched-IsFrom w (b ∷ batch) s h) fetched))

-- However the calls of the database end and however long the loop runs, drainTasks loses no task: a
-- task of the inbox is still there afterwards, or every cluster that the resolver names for its path
-- has an event of its request; and no task is made up.
pub drain_tasks-IsSafe :
    (fuel : ℕ) (resolver : Resolver) (w : World)
    → UniqueTasks w.db.tasks
    → IsSafe resolver w.db.tasks (drain_tasks fuel resolver w).1.db
drain_tasks-IsSafe fuel resolver w unique =
    drain-IsSafe resolver w.db.tasks unique fuel w
      (record { no_new = λ t m. m; kept = λ t m. inl m })
