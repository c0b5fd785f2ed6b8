-- ===== src/Wire.antt =====
-- internal/shared/wire/wire.go: what the panel and the agents exchange. A time is a number of
-- nanoseconds after Go's zero time.
use secret_control_panel.Base.{nat_eq, ℤ, ℕ, ◌*◌, Bool}
use secret_control_panel.Text.{Str, codes}

abbrev pub Time : Type 0
Time = ℕ

-- time.Second and time.Minute, in nanoseconds.
abbrev pub second : ℕ
second = 1_000_000_000

abbrev pub minute : ℕ
minute = 60 * second

abbrev pub Operation : Type 0
Operation = Str

abbrev pub create : Operation
create = codes "create"

abbrev pub update : Operation
update = codes "update"

abbrev pub patch : Operation
patch = codes "patch"

abbrev pub delete : Operation
delete = codes "delete"

pub record SecretEvent : Type 0 where
  pub time : Time
  pub request_id : Str
  pub operation : Operation
  pub mount : Str
  pub path : Str
  pub version : ℤ

pub record Registration : Type 0 where
  pub cluster : Str
  pub url : Str
  pub token : Str

pub record Callback : Type 0 where
  pub request_id : Str
  pub cluster : Str
  pub synced : Bool
  pub matched : ℤ
  pub patched : ℤ
  pub elapsed_ms : ℤ

abbrev pub events_path : Str
events_path = codes "/api/v1/events"

abbrev pub health_path : Str
health_path = codes "/api/v1/healthz"

abbrev pub agent_register_path : Str
agent_register_path = codes "/api/v1/agents/register"

abbrev pub callback_path : Str
callback_path = codes "/api/v1/callbacks"

-- The value of AuthHeader is the scheme and the token.
abbrev pub auth_scheme : Str
auth_scheme = codes "Bearer "
