-- ===== src/Db.antt =====
-- internal/scp/db/db.go: the tables of the schema, a list of rows each. A `TEXT` column is a text, an
-- `INT` one an integer; `status` holds the four words that the statements write. PostgreSQL itself
-- is outside the repository: the statements are translated where the program issues them, and what
-- a call of the database may do is in Db/World.
pub mod World
pub mod Steps
pub mod Smooth
pub mod Samples
use secret_control_panel.Base.{
  ltb, leb, nat_beq, if◌then◌else◌, leb_iff, nat_beq_iff, Bool-cases, Option-cases, is_some, ◌==◌,
  ◌!=◌, nat_eq, eq_iff, eq_refl, ne_of_beq, beq_of_ne, list_beq, list_beq_iff, Eq, length, take,
  any, all, filter, find?, All, length-append, All-append, All-mem, All-of-mem, All-perm, mem-perm,
  pos_part, neg_part, ◌≤ℤ◌, leb_ℤ, ℤ, pos, negsuc, ◌>>=◌, ◌>>◌, >>=-ok, Result, ok, err, ℕ, zero,
  suc, ◌+◌, ◌-◌, ◌*◌, ◌%◌, ◌^◌, ◌≤◌, ◌<◌, min, max, ◌≡◌, refl, sym, ap, subst, ◌∙◌, ◌≢◌, ◌↔◌, ◌⊎◌,
  inl, inr, Bool, true, false, false≢true, not, ◌&&◌, ◌||◌, Option, none, some, List, [], ◌∷◌, ◌++◌,
  map, reverse, Memᴰ, Permᴰ, le_antisymm, le_trans, le_refl, arith,
}
use secret_control_panel.Text.{Str}
use secret_control_panel.Wire.{Time}

pub record AgentRow : Type 0 where
  pub cluster : Str
  pub url : Str
  pub token : Str
  pub registered_at : Time
  pub last_seen_at : Time

pub record VersionRow : Type 0 where
  pub mount : Str
  pub path : Str
  pub version : ℤ

pub record TaskRow : Type 0 where
  pub id : ℕ
  pub request_id : Str
  pub operation : Str
  pub mount : Str
  pub path : Str
  pub version : ℤ
  pub created_at : Time

pub data Status : Type 0 where
  pending : Status
  dispatched : Status
  failed : Status
  dead : Status

pub record EventRow : Type 0 where
  pub id : ℕ
  pub request_id : Str
  pub cluster : Str
  pub operation : Str
  pub mount : Str
  pub path : Str
  pub version : ℤ
  pub status : Status
  pub attempts : ℕ
  pub next_retry_at : Option Time
  pub synced : Option Bool
  pub matched : Option ℤ
  pub patched : Option ℤ
  pub elapsed_ms : Option ℤ
  pub synced_at : Option Time
  pub created_at : Time
  pub dispatched_at : Option Time

pub record TokenRow : Type 0 where
  pub id : ℕ
  pub token : Str
  pub created_at : Time
  pub active : Bool

-- The channels of LISTEN and NOTIFY.
pub data Channel : Type 0 where
  tasks_new : Channel
  events_new : Channel

-- `next_task_id` and `next_event_id` are the sequences behind the BIGSERIAL columns, and `notices`
-- the notifications that committed transactions have sent.
pub record Db : Type 0 where
  pub agents : List AgentRow
  pub versions : List VersionRow
  pub tasks : List TaskRow
  pub events : List EventRow
  pub api_tokens : List TokenRow
  pub next_task_id : ℕ
  pub next_event_id : ℕ
  pub notices : List Channel

-- The schema of a new database.
abbrev pub empty_db : Db
empty_db = record {
  agents = [];
  versions = [];
  tasks = [];
  events = [];
  api_tokens = [];
  next_task_id = 1;
  next_event_id = 1;
  notices = [];
}

-- What a rollback leaves: the old rows, and the sequences, which never go back.
unfoldable pub rollback : Db → Db → Db
rollback old new = record old { next_task_id = new.next_task_id; next_event_id = new.next_event_id }

pub Status-discrete : Discrete Status
Status-discrete = hlevel
