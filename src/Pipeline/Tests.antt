-- ===== src/Pipeline/Tests.antt =====
-- The way of one change: version 4 of kv/app, of which version 3 is known, for the cluster east, whose
-- agent answers once and is not reached again.
use secret_control_panel.Base.{
  nat_eq, ne_of_beq, list_beq, All, refl, true, some, [], ◌∷◌, Memᴰ, arith,
}
use secret_control_panel.Text.{codes, str_eq}
use secret_control_panel.Daemon.Store.{agent_of}
use secret_control_panel.Daemon.Dispatcher.Serving.{IsSuccess}
use secret_control_panel.Pipeline.Delivered.{HasReached, ingested-HasReached}
use secret_control_panel.Db.World.{World, Answer, statement, autocommit, transaction}
use secret_control_panel.Db.Samples.{update_to, calm, busy_db, east, event_row}
use secret_control_panel.Sort.Insertion.{insertion_sort}
use secret_control_panel.Listener.{
  ingest, ingest_body, advance, upsert, insert_task_row, version_of,
}
use secret_control_panel.Daemon.Store.{
  fetch_tasks, fanout_task, fanout_body, insert_events, insert_event_row,
}
use secret_control_panel.Daemon.Processor.{Resolver, drain_tasks, process_batch}
use secret_control_panel.Pipeline.{IsNumbered, drained_world}
use secret_control_panel.Pipeline.Attempted.{IsTried, ingested-IsTried}

abbrev to_east : Resolver
to_east mount path = east ∷ []

busy-IsNumbered : IsNumbered busy_db
busy-IsNumbered = record {
  task_ids = (tt, tt);
  tasks_below = (omega arith, tt);
  events = record { ids = (tt, tt); bounded = (omega arith, tt); keys = (tt, tt) };
}

ingested-IsTried_example :
    All
      (IsTried (codes "r4") (drained_world to_east (update_to 4) (calm busy_db) 3 100))
      (east ∷ [])
unfolding ingest ingest_body advance statement transaction version_of upsert insert_task_row
    list_beq fetch_tasks autocommit insertion_sort drain_tasks process_batch fanout_task fanout_body
    insert_events insert_event_row
ingested-IsTried_example =
    ingested-IsTried to_east (update_to 4) (calm busy_db) 3 100 tt busy-IsNumbered refl refl
      (ne_of_beq event_row.request_id (codes "r4") refl, tt)
      ((refl, tt), (λ done. absurd (ground arith), tt)) (λ e. e, tt) (omega arith) (omega arith)

abbrev success : Answer
success = record { status = some 200; received = true; took = 3 }

-- Eighteen POSTs are answered with success.
abbrev answering : World
answering = record (calm busy_db) {
  answers =
      success ∷ success ∷ success ∷ success ∷ success ∷ success ∷ success ∷ success ∷ success
      ∷ success ∷ success ∷ success ∷ success ∷ success ∷ success ∷ success ∷ success ∷ success
      ∷ [];
}

answering-IsSuccess : All IsSuccess answering.answers
answering-IsSuccess = (
  (refl, refl),
  (
    (refl, refl),
    (
      (refl, refl),
      (
        (refl, refl),
        (
          (refl, refl),
          (
            (refl, refl),
            (
              (refl, refl),
              (
                (refl, refl),
                (
                  (refl, refl),
                  (
                    (refl, refl),
                    (
                      (refl, refl),
                      (
                        (refl, refl),
                        (
                          (refl, refl),
                          (
                            (refl, refl),
                            ((refl, refl), ((refl, refl), ((refl, refl), ((refl, refl), tt)))),
                          ),
                        ),
                      ),
                    ),
                  ),
                ),
              ),
            ),
          ),
        ),
      ),
    ),
  ),
)

ingested-HasReached_example :
    HasReached
      (update_to 4)
      east
      (codes "http://east/")
      (codes "t")
      (drained_world to_east (update_to 4) answering 3 100)
unfolding ingest ingest_body advance statement transaction version_of upsert insert_task_row
    list_beq fetch_tasks autocommit insertion_sort drain_tasks process_batch fanout_task fanout_body
    insert_events insert_event_row agent_of
ingested-HasReached_example =
    ingested-HasReached to_east (update_to 4) answering 3 100 tt busy-IsNumbered refl refl
      (ne_of_beq event_row.request_id (codes "r4") refl, tt) (omega arith) (omega arith)
      answering-IsSuccess (omega arith) east (codes "http://east/") (codes "t") (Memᴰ.head refl)
      refl
