-- ===== src/Listener/Outcomes.antt =====
-- The three ways in which Ingest succeeds, as changes of the tables.
use secret_control_panel.Base.{
  Bool-cases, nat_eq, ◌≤ℤ◌, ℤ, Result, ok, ℕ, suc, ◌≡◌, refl, sym, ap, subst, ◌∙◌, inl, inr, true,
  false, Option, none, some, [], ◌∷◌, ◌++◌, arith,
}
use secret_control_panel.Text.{str_eq}
use secret_control_panel.Wire.{Time, SecretEvent}
use secret_control_panel.Db.{Db, TaskRow}
use secret_control_panel.Db.World.{World, Error, after_call, statement}
use secret_control_panel.Db.Steps.{transaction-ok}
use secret_control_panel.Listener.{
  IngestResult, inserted, dropped_old_version, dropped_duplicate_request, notify_channel,
  version_of, upsert, has_task, is_old, insert_task_row, advance, ingest_body, ingest,
}

-- The task that Ingest queues for an event.
abbrev pub task_of : Time → SecretEvent → ℕ → TaskRow
task_of now ev id = record {
  id = id;
  request_id = ev.request_id;
  operation = ev.operation;
  mount = ev.mount;
  path = ev.path;
  version = ev.version;
  created_at = now;
}

abbrev pub IsNewer : SecretEvent → Db → Type 0
IsNewer ev db = is_old (version_of ev.mount ev.path db.versions) ev ≡ false

-- What a successful Ingest of `ev` did, from the tables before and after.
pub data Outcome (now : Time) (ev : SecretEvent) (db db' : Db) : IngestResult → Type 0 where
  stale :
      (stored : ℤ)
      → version_of ev.mount ev.path db.versions ≡ some stored
      → ev.version ≤ℤ stored
      → db' ≡ db
      → Outcome now ev db db' dropped_old_version
  duplicate :
      IsNewer ev db
      → has_task ev.request_id db.tasks ≡ true
      → db' ≡ record db {
        versions = upsert ev.mount ev.path ev.version db.versions;
        next_task_id = suc db.next_task_id;
      }
      → Outcome now ev db db' dropped_duplicate_request
  queued :
      IsNewer ev db
      → has_task ev.request_id db.tasks ≡ false
      → db' ≡ record db {
        versions = upsert ev.mount ev.path ev.version db.versions;
        next_task_id = suc db.next_task_id;
        tasks = db.tasks ++ task_of now ev db.next_task_id ∷ [];
        notices = db.notices ++ notify_channel ∷ [];
      }
      → Outcome now ev db db' inserted

module _ (now : Time) (ev : SecretEvent) (w : World) where
  advance-duplicate :
      {r : IngestResult}
      → has_task ev.request_id w.db.tasks ≡ true
      → (advance now ev w).0 ≡ ok r
      → (r ≡ dropped_duplicate_request)
        × ((advance now ev w).1.db ≡ record w.db {
          versions = upsert ev.mount ev.path ev.version w.db.versions;
          next_task_id = suc w.db.next_task_id;
        })
  unfolding advance statement insert_task_row
  advance-duplicate dup h = ground arith

  advance-queued :
      {r : IngestResult}
      → has_task ev.request_id w.db.tasks ≡ false
      → (advance now ev w).0 ≡ ok r
      → (r ≡ inserted)
        × ((advance now ev w).1.db ≡ record w.db {
          versions = upsert ev.mount ev.path ev.version w.db.versions;
          next_task_id = suc w.db.next_task_id;
          tasks = w.db.tasks ++ task_of now ev w.db.next_task_id ∷ [];
          notices = w.db.notices ++ notify_channel ∷ [];
        })
  unfolding advance statement insert_task_row
  advance-queued fresh h = ground arith

  -- The tables after the two inserts of a newer event.
  advance-Outcome :
      {r : IngestResult}
      → IsNewer ev w.db
      → (advance now ev w).0 ≡ ok r
      → Outcome now ev w.db (advance now ev w).1.db r
  advance-Outcome newer h = elim (Bool-cases (has_task ev.request_id w.db.tasks)) [
    | inl dup ↦
        let (e, rows) = advance-duplicate dup h in
        subst (Outcome now ev w.db (advance now ev w).1.db) (sym e) (duplicate newer dup rows)
    | inr fresh ↦
        let (e, rows) = advance-queued fresh h in
        subst (Outcome now ev w.db (advance now ev w).1.db) (sym e) (queued newer fresh rows)
  ]

stale-Outcome :
    (now : Time) (ev : SecretEvent) (db db' : Db) (o : Option ℤ)
    → version_of ev.mount ev.path db.versions ≡ o
    → is_old o ev ≡ true
    → db' ≡ db
    → Outcome now ev db db' dropped_old_version
stale-Outcome now ev db db' none e old same = absurd (ground arith)
stale-Outcome now ev db db' (some stored) e old same = stale stored e (ground arith) same

module _ (now : Time) (ev : SecretEvent) (w : World) where
  body-stale :
      {r : IngestResult}
      → is_old (version_of ev.mount ev.path w.db.versions) ev ≡ true
      → (ingest_body ev now w).0 ≡ ok r
      → (r ≡ dropped_old_version) × ((ingest_body ev now w).1.db ≡ w.db)
  unfolding ingest_body statement
  body-stale old h = ground arith

  -- A newer event goes through `advance`, from a world with the same database.
  body-newer :
      {r : IngestResult}
      → IsNewer ev w.db
      → (ingest_body ev now w).0 ≡ ok r
      → (v : World) × (v.db ≡ w.db) × (ingest_body ev now w ≡ advance now ev v)
  unfolding ingest_body statement
  body-newer newer h = (after_call w, refl, ground arith)

  pub body-Outcome :
      {r : IngestResult}
      → (ingest_body ev now w).0 ≡ ok r
      → Outcome now ev w.db (ingest_body ev now w).1.db r
  body-Outcome {r} h = elim (Bool-cases (is_old (version_of ev.mount ev.path w.db.versions) ev)) [
    | inl old ↦
        let (e, same) = body-stale old h in
        subst (Outcome now ev w.db (ingest_body ev now w).1.db) (sym e) (
          stale-Outcome now ev w.db (ingest_body ev now w).1.db
            (version_of ev.mount ev.path w.db.versions) refl old same)
    | inr newer ↦
        let (v, db, run) = body-newer newer h in
        subst (λ d. Outcome now ev d (ingest_body ev now w).1.db r) db
          (subst (λ (q : Result Error IngestResult × World). Outcome now ev v.db q.1.db r) (sym run)
            (advance-Outcome now ev v (subst (IsNewer ev) (sym db) newer)
              (sym (ap (λ (q : Result Error IngestResult × World). q.0) run) ∙ h)))
  ]

-- Every success of Ingest is one of the three outcomes: a version that is not newer than the stored
-- one changes nothing; a newer one moves the watermark, and queues a task and a notification unless
-- a task with its request id is already queued.
pub ingest-Outcome :
    (ev : SecretEvent) (w : World) {r : IngestResult}
    → (ingest ev w).0 ≡ ok r
    → Outcome (after_call w).clock ev w.db (ingest ev w).1.db r
unfolding ingest
ingest-Outcome ev w {r} h =
    let (ran, db) = transaction-ok (ingest_body ev) w h in
    rw db (body-Outcome (after_call w).clock ev (after_call w) ran)
