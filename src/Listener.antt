-- ===== src/Listener.antt =====
-- internal/scp/listener/store.go: the version watermark and the daemon's inbox.
pub mod Outcomes
pub mod Atomic
pub mod Watermark
pub mod Deletions
pub mod Refinement
pub mod Interleaved
pub mod Intake
pub mod Tests
use secret_control_panel.Base.{
  ltb, leb, nat_beq, if◌then◌else◌, leb_iff, nat_beq_iff, Bool-cases, Option-cases, is_some, ◌==◌,
  ◌!=◌, nat_eq, eq_iff, eq_refl, ne_of_beq, beq_of_ne, list_beq, list_beq_iff, Eq, length, take,
  any, all, filter, find?, All, length-append, All-append, All-mem, All-of-mem, All-perm, mem-perm,
  pos_part, neg_part, ◌≤ℤ◌, leb_ℤ, ℤ, pos, negsuc, >>=-ok, Result, ok, err, ℕ, zero, suc, ◌+◌, ◌-◌,
  ◌*◌, ◌%◌, ◌^◌, ◌≤◌, ◌<◌, min, max, ◌≡◌, refl, sym, ap, subst, ◌∙◌, ◌≢◌, ◌↔◌, ◌⊎◌, inl, inr, Bool,
  true, false, false≢true, not, ◌&&◌, ◌||◌, Option, none, some, List, [], ◌∷◌, ◌++◌, map, reverse,
  Memᴰ, Permᴰ, le_antisymm, le_trans, le_refl, arith,
}
use secret_control_panel.Text.{Str, str_eq}
use secret_control_panel.Wire.{Time, SecretEvent}
use secret_control_panel.Db.{Db, VersionRow, TaskRow, Channel, tasks_new}
use secret_control_panel.Db.World.{
  World, M, Error, select_version, upsert_version, insert_task, notify_failed, pure, statement,
  transaction, ◌>>=◌, ◌>>◌,
}

pub data IngestResult : Type 0 where
  inserted : IngestResult
  dropped_old_version : IngestResult
  dropped_duplicate_request : IngestResult

abbrev pub notify_channel : Channel
notify_channel = tasks_new

-- SELECT version FROM versions WHERE mount = $1 AND path = $2
unfoldable pub version_of : Str → Str → List VersionRow → Option ℤ
version_of mount path [] = none
version_of mount path (v ∷ vs) =
    if v.mount == mount && v.path == path then some v.version else version_of mount path vs

-- INSERT INTO versions … ON CONFLICT (mount, path) DO UPDATE SET version = EXCLUDED.version
unfoldable pub upsert : Str → Str → ℤ → List VersionRow → List VersionRow
upsert mount path version [] = (record { mount = mount; path = path; version = version }) ∷ []
upsert mount path version (v ∷ vs) =
    if v.mount == mount && v.path == path
    then record v { version = version } ∷ vs
    else v ∷ upsert mount path version vs

abbrev pub has_task : Str → List TaskRow → Bool
has_task request_id = any (λ t. t.request_id == request_id)

-- INSERT INTO tasks … ON CONFLICT (request_id) DO NOTHING RETURNING id. The sequence gives out a
-- number in either case.
unfoldable pub insert_task_row : Time → SecretEvent → Db → Option ℕ × Db
insert_task_row now ev db =
    let numbered = record db { next_task_id = suc db.next_task_id } in
    if has_task ev.request_id db.tasks then (none, numbered) else (
      some db.next_task_id,
      record numbered {
        tasks =
            db.tasks
            ++ (record {
              id = db.next_task_id;
              request_id = ev.request_id;
              operation = ev.operation;
              mount = ev.mount;
              path = ev.path;
              version = ev.version;
              created_at = now;
            })
              ∷ [];
      },
    )

-- What Ingest does with the stored version: it drops an event that is not newer.
abbrev pub is_old : Option ℤ → SecretEvent → Bool
is_old none ev = false
is_old (some stored) ev = leb_ℤ ev.version stored

abbrev pub notify_if_new : Option ℕ → M IngestResult
notify_if_new none = pure dropped_duplicate_request
notify_if_new (some task_id) = do
  statement notify_failed
      (λ db. (tt {0}, record db { notices = db.notices ++ notify_channel ∷ [] }))
  pure inserted

-- What Ingest does when the event is newer than the stored version, or the path is new.
unfoldable pub advance : Time → SecretEvent → M IngestResult
advance now ev = do
  statement upsert_version
      (λ db. (tt {0}, record db { versions = upsert ev.mount ev.path ev.version db.versions }))
  task_id ← statement insert_task (insert_task_row now ev)
  notify_if_new task_id

unfoldable pub ingest_body : SecretEvent → Time → M IngestResult
ingest_body ev now = do
  stored ← statement select_version (λ db. (version_of ev.mount ev.path db.versions, db))
  if is_old stored ev then pure dropped_old_version else advance now ev

unfoldable pub ingest : SecretEvent → M IngestResult
ingest ev = transaction (ingest_body ev)

-- `pump` of cmd/scp-listener/main.go, over the events that arrive until the shutdown: an event that
-- fails is logged and dropped. The results are what it logs.
unfoldable pub pump : List SecretEvent → World → List (Result Error IngestResult) × World
pump [] w = ([], w)
pump (ev ∷ evs) w =
    let (res, w') = ingest ev w in let (rest, w'') = pump evs w' in (res ∷ rest, w'')
