-- ===== src/Listener/Refinement.antt =====
-- The listener against its contract: a mark for each path and a queue of changes, with no tables, no
-- ids and no calls that fail.
use mathlib.Core.Path.{fun_ext, subst₂}
use mathlib.Core.List.{map-append}
use secret_control_panel.Base.{
  if◌then◌else◌, ◌==◌, nat_eq, any, ℤ, Result, ok, err, ◌≡◌, refl, sym, ap, subst, ◌∙◌, inl, inr,
  Bool, true, false, ◌&&◌, ◌||◌, Option, some, List, [], ◌∷◌, ◌++◌, map, arith,
}
use secret_control_panel.Text.{Str, str_eq}
use secret_control_panel.Wire.{Time, SecretEvent}
use secret_control_panel.Db.{Db, TaskRow, VersionRow, rollback}
use secret_control_panel.Db.World.{World, Error, after_call}
use secret_control_panel.Db.Steps.{SameRows}
use secret_control_panel.Listener.{
  IngestResult, inserted, dropped_old_version, dropped_duplicate_request, version_of, upsert,
  has_task, is_old, ingest, pump,
}
use secret_control_panel.Listener.Outcomes.{
  Outcome, stale, duplicate, queued, task_of, ingest-Outcome,
}
use secret_control_panel.Listener.Atomic.{ingest_atomic}
use secret_control_panel.Listener.Watermark.{version_of-upsert}

-- A change of a secret that waits for the daemon.
pub record Change : Type 0 where
  pub request_id : Str
  pub operation : Str
  pub mount : Str
  pub path : Str
  pub version : ℤ

-- The newest version that has been seen of each path, and the changes in the order of their arrival.
pub record Contract : Type 0 where
  pub mark : Str → Str → Option ℤ
  pub changes : List Change

abbrev pub change_of : SecretEvent → Change
change_of ev = record {
  request_id = ev.request_id;
  operation = ev.operation;
  mount = ev.mount;
  path = ev.path;
  version = ev.version;
}

-- The marks after a version has been seen.
abbrev pub seen : SecretEvent → (Str → Str → Option ℤ) → Str → Str → Option ℤ
seen ev mark mount path =
    if ev.mount == mount && ev.path == path then some ev.version else mark mount path

-- The event is newer than what has been seen of its path.
abbrev pub IsNew : SecretEvent → Contract → Type 0
IsNew ev a = is_old (a.mark ev.mount ev.path) ev ≡ false

abbrev pub waits : Str → List Change → Bool
waits request_id = any (λ (c : Change). c.request_id == request_id)

-- What may become of an event, with what the listener says of it. An error says nothing.
pub data Step (ev : SecretEvent) (a : Contract)
    : Result Error IngestResult → Contract → Type 0 where
  drop : is_old (a.mark ev.mount ev.path) ev ≡ true → Step ev a (ok dropped_old_version) a
  again :
      IsNew ev a
      → waits ev.request_id a.changes ≡ true
      → Step ev a (ok dropped_duplicate_request) (record a { mark = seen ev a.mark })
  queue :
      IsNew ev a
      → waits ev.request_id a.changes ≡ false
      → Step ev a
          (ok inserted)
          (record { mark = seen ev a.mark; changes = a.changes ++ change_of ev ∷ [] })
  fail : (e : Error) → Step ev a (err e) a
  unsure :
      (e : Error) {r : IngestResult} {a' : Contract} → Step ev a (ok r) a' → Step ev a (err e) a'

-- One step for each event, in their order.
pub data Run
    : List SecretEvent → List (Result Error IngestResult) → Contract → Contract → Type 0 where
  rest : {a : Contract} → Run [] [] a a
  step :
      {ev : SecretEvent} {evs : List SecretEvent} {r : Result Error IngestResult}
      {rs : List (Result Error IngestResult)} {a b c : Contract}
      → Step ev a r b
      → Run evs rs b c
      → Run (ev ∷ evs) (r ∷ rs) a c

abbrev pub change_in : TaskRow → Change
change_in t = record {
  request_id = t.request_id;
  operation = t.operation;
  mount = t.mount;
  path = t.path;
  version = t.version;
}

-- What the tables say, without ids, times and the order of the version rows.
abbrev pub view : Db → Contract
view db = record {
  mark = λ mount path. version_of mount path db.versions;
  changes = map change_in db.tasks;
}

waits-tasks :
    (request_id : Str) (tasks : List TaskRow)
    → waits request_id (map change_in tasks) ≡ has_task request_id tasks
waits-tasks request_id [] = refl
waits-tasks request_id (t ∷ tasks) =
    ap (λ b. t.request_id == request_id || b) (waits-tasks request_id tasks)

seen-upsert :
    (ev : SecretEvent) (vs : List VersionRow)
    → (λ mount path. version_of mount path (upsert ev.mount ev.path ev.version vs))
      ≡ seen ev (λ mount path. version_of mount path vs)
seen-upsert ev vs =
    fun_ext (λ mount. fun_ext (λ path. version_of-upsert mount path ev.mount ev.path ev.version vs))

Outcome-Step :
    (now : Time) (ev : SecretEvent) (db db' : Db) {r : IngestResult}
    → Outcome now ev db db' r
    → Step ev (view db) (ok r) (view db')
Outcome-Step now ev db db' (stale stored is_stored old e) =
    subst (λ d. Step ev (view db) (ok dropped_old_version) (view d)) (sym e)
      (drop (rw is_stored (ground arith)))
Outcome-Step now ev db db' (duplicate new there e) =
    subst (λ d. Step ev (view db) (ok dropped_duplicate_request) (view d)) (sym e)
      (subst
        (λ mark.
          Step ev (view db) (ok dropped_duplicate_request) (record (view db) { mark = mark }))
        (sym (seen-upsert ev db.versions)) (again new (waits-tasks ev.request_id db.tasks ∙ there)))
Outcome-Step now ev db db' (queued new missing e) =
    subst (λ d. Step ev (view db) (ok inserted) (view d)) (sym e)
      (subst₂
        (λ mark changes.
          Step ev (view db) (ok inserted) (record { mark = mark; changes = changes }))
        (sym (seen-upsert ev db.versions))
        (sym (map-append change_in db.tasks (task_of now ev db.next_task_id ∷ [])))
        (queue new (waits-tasks ev.request_id db.tasks ∙ missing)))

same-view : (old new : Db) → SameRows old new → view new ≡ view old
unfolding rollback
same-view old new e = ap view e

-- A success of Ingest, or what is behind an error.
ingest-Step :
    (ev : SecretEvent) (w : World) → Step ev (view w.db) (ingest ev w).0 (view (ingest ev w).1.db)
ingest-Step ev w = by_result (ingest ev w).0 refl
  where
    by_result :
        (r : Result Error IngestResult)
        → (ingest ev w).0 ≡ r
        → Step ev (view w.db) r (view (ingest ev w).1.db)
    by_result (ok r) h =
        Outcome-Step (after_call w).clock ev w.db (ingest ev w).1.db (ingest-Outcome ev w h)
    by_result (err e) h = elim (ingest_atomic ev w) [
      | inl same ↦
          subst (Step ev (view w.db) (err e)) (sym (same-view w.db (ingest ev w).1.db same))
            (fail e)
      | inr (r, out) ↦ unsure e (Outcome-Step (after_call w).clock ev w.db (ingest ev w).1.db out)
    ]

-- The listener keeps its contract: whatever calls of the database fail, a run of `pump` is, seen
-- without ids and times, a run of the contract with the same results. Each event that is not newer
-- than what has been seen of its path is dropped; a newer one moves the mark of its path, and of no
-- other, and waits in the queue unless a change of its request does; an error leaves everything as
-- it was or stands for one of these.
pub pump-Run :
    (evs : List SecretEvent) (w : World)
    → Run evs (pump evs w).0 (view w.db) (view (pump evs w).1.db)
unfolding pump
pump-Run [] w = rest
pump-Run (ev ∷ evs) w = step (ingest-Step ev w) (pump-Run evs (ingest ev w).1)
