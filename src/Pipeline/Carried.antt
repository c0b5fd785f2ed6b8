-- ===== src/Pipeline/Carried.antt =====
-- The operations of the listener and the processor carry a change on.
use secret_control_panel.Base.{
  ltb, Bool-cases, ◌==◌, nat_eq, take, any, All, All-append, All-mem, All-of-mem, All-perm,
  All-take, All-map, mem_of-filter, Result, ok, err, ℕ, zero, suc, ◌+◌, ◌≡◌, refl, sym, subst, ◌∙◌,
  ◌⊎◌, inl, inr, Bool, not, Option, none, some, List, [], ◌∷◌, Memᴰ,
}
use secret_control_panel.Text.{Str, str_eq}
use secret_control_panel.Wire.{Time, SecretEvent}
use secret_control_panel.Db.{Db, TaskRow}
use secret_control_panel.Db.World.{
  World, Error, statement, pure, select_tasks, insert_event, delete_task, notify_failed,
  upsert_version, insert_task, select_version,
}
use secret_control_panel.Db.Steps.{autocommit-read, autocommit-ok}
use secret_control_panel.Sort.Insertion.{insertion_sort, insertion_sort-perm}
use secret_control_panel.Listener.{
  ingest, ingest_body, advance, insert_task_row, has_task, is_old, notify_if_new,
  dropped_old_version, upsert, version_of,
}
use secret_control_panel.Daemon.Store.{
  Task, scan_task, is_for, fetch_tasks, insert_event_row, insert_events, remove_task, fanout_body,
  fanout_task,
}
use secret_control_panel.Daemon.Processor.{Resolver, batch_size, process_batch, drain_tasks}
use secret_control_panel.Daemon.Dispatcher.Posting.{autocommit-posts}
use secret_control_panel.Daemon.Dispatcher.Receipt.{autocommit-answers}
use secret_control_panel.Pipeline.Carrying.{
  IsFresh, Agrees, IsOwnEvent, Good, GoodDb, Carrying, moved, Carrying-pure, Carrying-bind,
  Carrying-if, Carrying-statement, Carrying-transaction,
}

module _ (ev : SecretEvent) (start : World) where
  -- Changes of the other tables, and of the sequences.
  same_rows :
      (old new : Db)
      → new.tasks ≡ old.tasks
      → new.events ≡ old.events
      → new.agents ≡ old.agents
      → GoodDb ev start old
      → GoodDb ev start new
  same_rows old new t e a h = record {
    tasks = subst (All (λ (r : TaskRow). Agrees ev (scan_task r).event)) (sym t) h.tasks;
    events = subst (All (IsOwnEvent ev)) (sym e) h.events;
    rows = subst (All (λ r. IsFresh r ⊎ Memᴰ r start.db.events)) (sym e) h.rows;
    same_agents = a ∙ h.same_agents;
  }

  task-carried :
      (now : Time) (db : Db) → GoodDb ev start db → GoodDb ev start (insert_task_row now ev db).1
  unfolding insert_task_row
  task-carried now db h = elim (Bool-cases (has_task ev.request_id db.tasks)) [
    | inl e ↦
        rw e (same_rows db (record db { next_task_id = suc db.next_task_id }) refl refl refl h)
    | inr e ↦ rw e (record {
      tasks = All-append _ db.tasks _ h.tasks (λ same. refl, tt);
      events = h.events;
      rows = h.rows;
      same_agents = h.same_agents;
    })
  ]

  notify-Carrying : (o : Option ℕ) → Carrying ev start (notify_if_new o)
  notify-Carrying none = Carrying-pure ev start _
  notify-Carrying (some id) =
      Carrying-bind ev start _ _
        (Carrying-statement ev start notify_failed _ (λ db h. same_rows db _ refl refl refl h))
        (λ u. Carrying-pure ev start _)

  ingest_body-Carrying : (now : Time) → Carrying ev start (ingest_body ev now)
  unfolding ingest_body advance
  ingest_body-Carrying now =
      Carrying-bind ev start
        (statement select_version (λ db. (version_of ev.mount ev.path db.versions, db))) _
        (Carrying-statement ev start select_version _ (λ db h. h))
        (λ stored.
          Carrying-if ev start (is_old stored ev) (pure dropped_old_version) (advance now ev)
            (Carrying-pure ev start dropped_old_version)
            (Carrying-bind ev start
              (statement upsert_version (λ db.
                (tt {0}, record db { versions = upsert ev.mount ev.path ev.version db.versions })))
              _
              (Carrying-statement ev start upsert_version _
                (λ db h. same_rows db _ refl refl refl h))
              (λ u.
                Carrying-bind ev start (statement insert_task (insert_task_row now ev)) _
                  (Carrying-statement ev start insert_task (insert_task_row now ev)
                    (task-carried now))
                  notify-Carrying)))

  pub ingest-Carrying : Carrying ev start (ingest ev)
  unfolding ingest
  ingest-Carrying = Carrying-transaction ev start (ingest_body ev) ingest_body-Carrying

  event-carried :
      (other : SecretEvent) (now : Time) (c : Str) (db : Db)
      → Agrees ev other
      → GoodDb ev start db
      → GoodDb ev start (insert_event_row now other c db).1
  unfolding insert_event_row
  event-carried other now c db own h =
      elim (Bool-cases (any (is_for other.request_id c) db.events)) [
        | inl e ↦
            rw e
              (same_rows db (record db { next_event_id = suc db.next_event_id }) refl refl refl h)
        | inr e ↦ rw e (record {
          tasks = h.tasks;
          events = All-append _ db.events _ h.events (λ same. (refl, own same), tt);
          rows = All-append _ db.events _ h.rows (inl (refl, refl), tt);
          same_agents = h.same_agents;
        })
      ]

  inserts-Carrying :
      (other : SecretEvent) (now : Time) (clusters : List Str) (count : ℕ)
      → Agrees ev other
      → Carrying ev start (insert_events now other clusters count)
  unfolding insert_events
  inserts-Carrying other now [] count own = Carrying-pure ev start count
  inserts-Carrying other now (c ∷ clusters) count own =
      Carrying-bind ev start (statement (insert_event c) (insert_event_row now other c)) _
        (Carrying-statement ev start (insert_event c) (insert_event_row now other c)
          (λ db h. event-carried other now c db own h))
        (λ affected. inserts-Carrying other now clusters (count + affected) own)

  removed-tasks :
      (id : ℕ) (db : Db)
      → GoodDb ev start db
      → GoodDb ev start (record db { tasks = remove_task id db.tasks })
  removed-tasks id db h = record {
    tasks =
        All-of-mem _ (remove_task id db.tasks) (λ t m.
          All-mem _ h.tasks (mem_of-filter (λ (q : TaskRow). not (q.id == id)) db.tasks m).0);
    events = h.events;
    rows = h.rows;
    same_agents = h.same_agents;
  }

  fanout_task-Carrying :
      (id : ℕ) (other : SecretEvent) (clusters : List Str)
      → Agrees ev other
      → Carrying ev start (fanout_task id other clusters)
  unfolding fanout_task fanout_body
  fanout_task-Carrying id other clusters own =
      Carrying-transaction ev start (fanout_body id other clusters) (λ now.
        Carrying-bind ev start (insert_events now other clusters 0) _
          (inserts-Carrying other now clusters 0 own)
          (λ count.
            Carrying-bind ev start
              (statement delete_task
                (λ db. (tt {0}, record db { tasks = remove_task id db.tasks })))
              _ (Carrying-statement ev start delete_task _ (removed-tasks id))
              (λ u.
                Carrying-if ev start (ltb 0 count) _ (pure tt)
                  (Carrying-statement ev start notify_failed _
                    (λ db h. same_rows db _ refl refl refl h))
                  (Carrying-pure ev start tt))))

  batch-carried :
      (resolver : Resolver) (tasks : List Task) (w : World)
      → All (λ (t : Task). Agrees ev t.event) tasks
      → Good ev start w
      → Good ev start (process_batch resolver tasks w).1
  unfolding process_batch
  batch-carried resolver [] w own h = h
  batch-carried resolver (t ∷ tasks) w own h =
      let clusters = resolver t.event.mount t.event.path in
      batch-carried resolver tasks (fanout_task t.id t.event clusters w).1 own.1
        ((fanout_task-Carrying t.id t.event clusters own.0).carries w h)

  fetched-Agrees :
      (w : World) (tasks : List Task)
      → (fetch_tasks batch_size w).0 ≡ ok tasks
      → Good ev start w
      → All (λ (t : Task). Agrees ev t.event) tasks
  unfolding fetch_tasks
  fetched-Agrees w tasks k h =
      subst (All (λ (t : Task). Agrees ev t.event)) (sym (autocommit-ok select_tasks _ w k).0) (
        All-map _ scan_task (take batch_size sorted) (
          All-take IsOwn batch_size sorted
            (All-perm IsOwn (insertion_sort-perm before w.db.tasks) h.carried.tasks)))
    where
      before : TaskRow → TaskRow → Bool
      before a b = ltb a.id b.id

      sorted : List TaskRow
      sorted = insertion_sort before w.db.tasks

      IsOwn : TaskRow → Type 0
      IsOwn t = Agrees ev (scan_task t).event

  fetch-carried : (w : World) → Good ev start w → Good ev start (fetch_tasks batch_size w).1
  unfolding fetch_tasks
  fetch-carried w h =
      moved ev start w (fetch_tasks batch_size w).1 (autocommit-answers select_tasks _ w)
        (autocommit-posts select_tasks _ w)
        (λ g. subst (GoodDb ev start) (sym (autocommit-read select_tasks _ w)) g) h

  -- However its calls end, drainTasks carries the change on.
  pub drain_tasks-carried :
      (fuel : ℕ) (resolver : Resolver) (w : World)
      → Good ev start w
      → Good ev start (drain_tasks fuel resolver w).1
  unfolding drain_tasks
  drain_tasks-carried zero resolver w h = h
  drain_tasks-carried (suc fuel) resolver w h =
      by_batch (fetch_tasks batch_size w).0 refl (drain_tasks-carried fuel resolver)
    where
      w' : World
      w' = (fetch_tasks batch_size w).1

      by_batch :
          (r : Result Error (List Task))
          → (fetch_tasks batch_size w).0 ≡ r
          → ((v : World) → Good ev start v → Good ev start (drain_tasks fuel resolver v).1)
          → Good ev start (drain_tasks (suc fuel) resolver w).1
      by_batch (err e) k later = rw (k, drain_tasks) (fetch-carried w h)
      by_batch (ok []) k later = rw (k, drain_tasks) (fetch-carried w h)
      by_batch (ok (t ∷ tasks)) k later =
          rw (k, drain_tasks)
            (later (process_batch resolver (t ∷ tasks) w').1 (
              batch-carried resolver (t ∷ tasks) w' (fetched-Agrees w (t ∷ tasks) k h)
                (fetch-carried w h)))
