-- ===== src/Daemon/Processor/Keyed.antt =====
-- The keys of the events table under the loop of RunProcessor.
use secret_control_panel.Base.{
  nat_eq, Result, ok, err, ℕ, zero, suc, ◌≡◌, refl, sym, subst, List, [], ◌∷◌,
}
use secret_control_panel.Db.World.{World, Error, select_tasks}
use secret_control_panel.Db.Steps.{autocommit-read}
use secret_control_panel.Daemon.Store.{Task, fetch_tasks, fanout_task}
use secret_control_panel.Daemon.Store.Unique.{IsKeyed, fanout-IsKeyed}
use secret_control_panel.Daemon.Processor.{
  Resolver, batch_size, process_batch, drain_tasks, Wake, woken, context_done, pass, run_processor,
}

module _ (resolver : Resolver) where
  batch-IsKeyed :
      (tasks : List Task) (w : World) → IsKeyed w.db → IsKeyed (process_batch resolver tasks w).1.db
  unfolding process_batch
  batch-IsKeyed [] w k = k
  batch-IsKeyed (t ∷ tasks) w k =
      let clusters = resolver t.event.mount t.event.path in
      batch-IsKeyed tasks (fanout_task t.id t.event clusters w).1
        (fanout-IsKeyed t.id t.event clusters w k)

  pub drain_tasks-IsKeyed :
      (fuel : ℕ) (w : World) → IsKeyed w.db → IsKeyed (drain_tasks fuel resolver w).1.db
  unfolding drain_tasks
  drain_tasks-IsKeyed zero w k = k
  drain_tasks-IsKeyed (suc fuel) w k =
      by_batch (fetch_tasks batch_size w).0 refl (drain_tasks-IsKeyed fuel)
    where
      w' : World
      w' = (fetch_tasks batch_size w).1

      k' : IsKeyed w'.db
      k' = unfold fetch_tasks in subst IsKeyed (sym (autocommit-read select_tasks _ w)) k

      by_batch :
          (r : Result Error (List Task))
          → (fetch_tasks batch_size w).0 ≡ r
          → ((v : World) → IsKeyed v.db → IsKeyed (drain_tasks fuel resolver v).1.db)
          → IsKeyed (drain_tasks (suc fuel) resolver w).1.db
      by_batch (err e) h later = rw (h, drain_tasks) k'
      by_batch (ok []) h later = rw (h, drain_tasks) k'
      by_batch (ok (t ∷ tasks)) h later =
          rw (h, drain_tasks)
            (later (process_batch resolver (t ∷ tasks) w').1 (batch-IsKeyed (t ∷ tasks) w' k'))

  -- However the calls of the database end, whenever the processor wakes and however long its rounds
  -- are, RunProcessor keeps the ids of the events unique and below the sequence that gives them out,
  -- and at most one event of a request for each cluster.
  pub run_processor-IsKeyed :
      (fuel : ℕ) (wakes : List Wake) (w : World)
      → IsKeyed w.db
      → IsKeyed (run_processor fuel resolver wakes w).db
  unfolding run_processor
  run_processor-IsKeyed fuel [] w k = k
  run_processor-IsKeyed fuel (context_done ∷ wakes) w k = k
  run_processor-IsKeyed fuel (woken t ∷ wakes) w k =
      run_processor-IsKeyed fuel wakes (drain_tasks fuel resolver (pass t w)).1
        (drain_tasks-IsKeyed fuel (pass t w) k)
