-- ===== src/Db/Samples.antt =====
-- A small state of the panel, for the tests.
use secret_control_panel.Base.{nat_eq, pos, ℕ, ◌+◌, true, none, some, [], ◌∷◌, ◌++◌}
use secret_control_panel.Text.{Str, codes}
use secret_control_panel.Wire.{SecretEvent, update}
use secret_control_panel.Db.{Db, TaskRow, EventRow, pending}
use secret_control_panel.Db.World.{World, lost}

abbrev pub east : Str
east = codes "east"

abbrev pub west : Str
west = codes "west"

-- An update of kv/app to a version.
abbrev pub update_to : ℕ → SecretEvent
update_to version = record {
  time = 0;
  request_id = codes "r" ++ (b'0' + version) ∷ [];
  operation = update;
  mount = codes "kv";
  path = codes "app";
  version = pos version;
}

abbrev pub task_row : TaskRow
task_row = record {
  id = 1;
  request_id = codes "r3";
  operation = update;
  mount = codes "kv";
  path = codes "app";
  version = pos 3;
  created_at = 0;
}

abbrev pub event_row : EventRow
event_row = record {
  id = 4;
  request_id = codes "r2";
  cluster = east;
  operation = update;
  mount = codes "kv";
  path = codes "app";
  version = pos 2;
  status = pending;
  attempts = 0;
  next_retry_at = none;
  synced = none;
  matched = none;
  patched = none;
  elapsed_ms = none;
  synced_at = none;
  created_at = 0;
  dispatched_at = none;
}

abbrev pub busy_db : Db
busy_db = record {
  agents =
      (record {
        cluster = east;
        url = codes "http://east/";
        token = codes "t";
        registered_at = 0;
        last_seen_at = 0;
      })
      ∷ [];
  versions = (record { mount = codes "kv"; path = codes "app"; version = pos 3 }) ∷ [];
  tasks = task_row ∷ [];
  events = event_row ∷ [];
  api_tokens = (record { id = 1; token = codes "u1"; created_at = 0; active = true }) ∷ [];
  next_task_id = 2;
  next_event_id = 5;
  notices = [];
}

-- A world at time 100, where no call of the database fails and one POST is answered 200.
abbrev pub calm : Db → World
calm db = record {
  db = db;
  clock = 100;
  calls = [];
  answers = (record { status = some 200; received = true; took = 3 }) ∷ [];
  posts = [];
}

-- The same, where the reply of the first call is lost.
abbrev pub shaky : Db → World
shaky db = record (calm db) { calls = (record { reply = lost; took = 1 }) ∷ [] }
