-- ===== src/Daemon/Store.antt =====
-- internal/scp/daemon/store.go
pub mod Inserts
pub mod Fanout
pub mod Unique
use secret_control_panel.Base.{
  ltb, leb, nat_beq, if◌then◌else◌, leb_iff, nat_beq_iff, Bool-cases, Option-cases, is_some, ◌==◌,
  ◌!=◌, nat_eq, eq_iff, eq_refl, ne_of_beq, beq_of_ne, list_beq, list_beq_iff, Eq, length, take,
  any, all, filter, find?, All, length-append, All-append, All-mem, All-of-mem, All-perm, mem-perm,
  pos_part, neg_part, ◌≤ℤ◌, leb_ℤ, ℤ, pos, negsuc, >>=-ok, Result, ok, err, ℕ, zero, suc, ◌+◌, ◌-◌,
  ◌*◌, ◌%◌, ◌^◌, ◌≤◌, ◌<◌, min, max, ◌≡◌, refl, sym, ap, subst, ◌∙◌, ◌≢◌, ◌↔◌, ◌⊎◌, inl, inr, Bool,
  true, false, false≢true, not, ◌&&◌, ◌||◌, Option, none, some, List, [], ◌∷◌, ◌++◌, map, reverse,
  Memᴰ, Permᴰ, le_antisymm, le_trans, le_refl, arith,
}
use secret_control_panel.Text.{Str, str_eq}
use secret_control_panel.Wire.{Time, SecretEvent}
use secret_control_panel.Db.{
  Db, AgentRow, TaskRow, EventRow, Status, pending, dispatched, failed, dead, Channel, tasks_new,
  events_new,
}
use secret_control_panel.Db.World.{
  M, Error, select_tasks, insert_event, delete_task, notify_failed, select_pending, select_agent,
  mark_dispatched_failed, mark_failed_failed, pure, statement, autocommit, transaction, ◌>>=◌, ◌>>◌,
}
use secret_control_panel.Sort.Insertion.{insertion_sort}

abbrev pub tasks_channel : Channel
tasks_channel = tasks_new

abbrev pub events_channel : Channel
events_channel = events_new

pub record Task : Type 0 where
  pub id : ℕ
  pub event : SecretEvent

-- The scan of a tasks row: created_at stands for the event's time.
abbrev pub scan_task : TaskRow → Task
scan_task t = record {
  id = t.id;
  event = record {
    time = t.created_at;
    request_id = t.request_id;
    operation = t.operation;
    mount = t.mount;
    path = t.path;
    version = t.version;
  };
}

-- SELECT … FROM tasks ORDER BY id LIMIT $1
unfoldable pub fetch_tasks : ℕ → M (List Task)
fetch_tasks limit =
    autocommit select_tasks
      (λ now db. (map scan_task (take limit (insertion_sort (λ a b. ltb a.id b.id) db.tasks)), db))

-- The row is the event of the request for the cluster: the columns of the UNIQUE constraint.
abbrev pub is_for : Str → Str → EventRow → Bool
is_for request_id cluster e = e.request_id == request_id && e.cluster == cluster

abbrev pub pending_row : Time → SecretEvent → Str → ℕ → EventRow
pending_row now ev cluster id = record {
  id = id;
  request_id = ev.request_id;
  cluster = cluster;
  operation = ev.operation;
  mount = ev.mount;
  path = ev.path;
  version = ev.version;
  status = pending;
  attempts = 0;
  next_retry_at = none;
  synced = none;
  matched = none;
  patched = none;
  elapsed_ms = none;
  synced_at = none;
  created_at = now;
  dispatched_at = none;
}

-- INSERT INTO events … ON CONFLICT (request_id, cluster) DO NOTHING, with the rows affected. The
-- sequence gives out a number in either case.
unfoldable pub insert_event_row : Time → SecretEvent → Str → Db → ℕ × Db
insert_event_row now ev cluster db =
    let numbered = record db { next_event_id = suc db.next_event_id } in
    if any (is_for ev.request_id cluster) db.events then (0, numbered) else (
      1,
      record numbered { events = db.events ++ pending_row now ev cluster db.next_event_id ∷ [] },
    )

-- The loop over the clusters, with the count of inserted rows so far.
unfoldable pub insert_events : Time → SecretEvent → List Str → ℕ → M ℕ
insert_events now ev [] count = pure count
insert_events now ev (cluster ∷ clusters) count = do
  affected ← statement (insert_event cluster) (insert_event_row now ev cluster)
  insert_events now ev clusters (count + affected)

-- DELETE FROM tasks WHERE id = $1
abbrev pub remove_task : ℕ → List TaskRow → List TaskRow
remove_task id = filter (λ t. not (t.id == id))

abbrev pub notify_if_any : ℕ → M (Unit {0})
notify_if_any count =
    if ltb 0 count
    then statement notify_failed
        (λ db. (tt, record db { notices = db.notices ++ events_channel ∷ [] }))
    else pure tt

unfoldable pub fanout_body : ℕ → SecretEvent → List Str → Time → M (Unit {0})
fanout_body task_id ev clusters now = do
  count ← insert_events now ev clusters 0
  statement delete_task (λ db. (tt {0}, record db { tasks = remove_task task_id db.tasks }))
  notify_if_any count

unfoldable pub fanout_task : ℕ → SecretEvent → List Str → M (Unit {0})
fanout_task task_id ev clusters = transaction (fanout_body task_id ev clusters)

pub record PendingEvent : Type 0 where
  pub id : ℕ
  pub cluster : Str
  pub attempts : ℕ
  pub event : SecretEvent

-- The scan of an events row. No column is read into the event's time, which stays the zero time.
abbrev pub scan_event : EventRow → PendingEvent
scan_event e = record {
  id = e.id;
  cluster = e.cluster;
  attempts = e.attempts;
  event = record {
    time = 0;
    request_id = e.request_id;
    operation = e.operation;
    mount = e.mount;
    path = e.path;
    version = e.version;
  };
}

-- next_retry_at IS NULL OR next_retry_at < now()
abbrev pub retry_due : Time → Option Time → Bool
retry_due now none = true
retry_due now (some at) = ltb at now

-- The WHERE clause of FetchPending.
abbrev pub is_due_status : Time → Option Time → Status → Bool
is_due_status now at pending = true
is_due_status now at failed = retry_due now at
is_due_status now at dispatched = false
is_due_status now at dead = false

abbrev pub is_due : Time → EventRow → Bool
is_due now e = is_due_status now e.next_retry_at e.status

abbrev pub due_rows : ℕ → Time → List EventRow → List EventRow
due_rows limit now events =
    take limit (insertion_sort (λ a b. ltb a.id b.id) (filter (is_due now) events))

unfoldable pub fetch_pending : ℕ → M (List PendingEvent)
fetch_pending limit =
    autocommit select_pending (λ now db. (map scan_event (due_rows limit now db.events), db))

unfoldable pub agent_of : Str → List AgentRow → Option (Str × Str)
agent_of cluster [] = none
agent_of cluster (a ∷ agents) =
    if a.cluster == cluster then some (a.url, a.token) else agent_of cluster agents

-- SELECT url, token FROM agents WHERE cluster = $1; none stands for ok=false.
unfoldable pub agent_endpoint : Str → M (Option (Str × Str))
agent_endpoint cluster = autocommit select_agent (λ now db. (agent_of cluster db.agents, db))

-- UPDATE events SET … WHERE id = $1
unfoldable pub update_event : ℕ → (EventRow → EventRow) → List EventRow → List EventRow
update_event id f [] = []
update_event id f (e ∷ events) = (if e.id == id then f e else e) ∷ update_event id f events

abbrev pub set_dispatched : Time → EventRow → EventRow
set_dispatched now e = record e { status = dispatched; dispatched_at = some now }

unfoldable pub mark_dispatched : ℕ → M (Unit {0})
mark_dispatched event_id =
    autocommit mark_dispatched_failed
      (λ now db. (tt, record db { events = update_event event_id (set_dispatched now) db.events }))

abbrev pub set_failed : ℕ → Bool → Time → EventRow → EventRow
set_failed attempts is_dead next_retry_at e = record e {
  status = if is_dead then dead else failed;
  attempts = attempts;
  next_retry_at = some next_retry_at;
}

unfoldable pub mark_failed : ℕ → ℕ → Bool → Time → M (Unit {0})
mark_failed event_id attempts is_dead next_retry_at = autocommit mark_failed_failed (λ now db. (
  tt,
  record db {
    events = update_event event_id (set_failed attempts is_dead next_retry_at) db.events;
  },
))
