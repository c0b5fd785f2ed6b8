-- ===== src/Api.antt =====
-- internal/scp/api/store.go and server.go: what the panel's HTTP API does with an agent's
-- registration and callback. The cast of a text to a uuid is PostgreSQL's and the decoding of a body
-- is encoding/json's, so both are parameters. A handler returns the status code that it writes; its
-- log lines are not modelled.
pub mod Access
pub mod Registering
pub mod Succeeding
pub mod Callbacks
pub mod Commuting
pub mod Tests
use secret_control_panel.Base.{
  ltb, leb, nat_beq, if◌then◌else◌, leb_iff, nat_beq_iff, Bool-cases, Option-cases, is_some, ◌==◌,
  ◌!=◌, nat_eq, eq_iff, eq_refl, ne_of_beq, beq_of_ne, list_beq, list_beq_iff, Eq, length, take,
  any, all, filter, find?, All, length-append, All-append, All-mem, All-of-mem, All-perm, mem-perm,
  All-take, All-map, mem-filter, mem_of-filter, length-filter-le, length-filter-lt, pos_part,
  neg_part, ◌≤ℤ◌, leb_ℤ, ℤ, pos, negsuc, ◌>>=◌, ◌>>◌, >>=-ok, Result, ok, err, Pairs, Pairs-take,
  Pairs-filter, Pairs-perm, Pairs-map, Pairs-of-map, Pairs-eq, ℕ, zero, suc, ◌+◌, ◌-◌, ◌*◌, ◌%◌,
  ◌^◌, ◌≤◌, ◌<◌, min, max, ◌≡◌, refl, sym, ap, subst, ◌∙◌, ◌≢◌, ◌↔◌, ◌⊎◌, inl, inr, Bool, true,
  false, false≢true, not, ◌&&◌, ◌||◌, Option, none, some, List, [], ◌∷◌, ◌++◌, map, reverse, Memᴰ,
  Permᴰ, le_antisymm, le_trans, le_refl, arith,
}
use secret_control_panel.Text.{Str, str_eq, cut_prefix}
use secret_control_panel.Wire.{Time, Registration, Callback, auth_scheme}
use secret_control_panel.Db.{Db, AgentRow, EventRow, TokenRow}
use secret_control_panel.Db.World.{
  World, M, Error, validate_token_failed, upsert_agent_failed, update_event_failed, autocommit,
}

-- What the cast `$1::uuid` makes of a text, in the form that the column `token` has; none for a
-- malformed one, which the statement reports as SQLSTATE 22P02.
abbrev pub UuidCast : Type 0
UuidCast = Str → Option Str

-- What json.Decoder.Decode makes of the start of a body; none where it returns an error.
abbrev pub Decoder : Type 0 → Type 0
Decoder A = Str → Option A

abbrev pub is_active : List TokenRow → Option Str → Bool
is_active tokens none = false
is_active tokens (some uuid) = any (λ (t : TokenRow). t.token == uuid && t.active) tokens

unfoldable pub validate_token : UuidCast → Str → M Bool
validate_token uuid_of token =
    autocommit validate_token_failed (λ now db. (is_active db.api_tokens (uuid_of token), db))

-- INSERT INTO agents … ON CONFLICT (cluster) DO UPDATE
unfoldable pub put_agent : Time → Registration → List AgentRow → List AgentRow
put_agent now reg [] =
    (record {
      cluster = reg.cluster;
      url = reg.url;
      token = reg.token;
      registered_at = now;
      last_seen_at = now;
    })
    ∷ []
put_agent now reg (a ∷ agents) =
    if a.cluster == reg.cluster
    then record a { url = reg.url; token = reg.token; last_seen_at = now } ∷ agents
    else a ∷ put_agent now reg agents

unfoldable pub upsert_agent : Registration → M (Unit {0})
upsert_agent reg =
    autocommit upsert_agent_failed
      (λ now db. (tt, record db { agents = put_agent now reg db.agents }))

abbrev pub is_of : Callback → EventRow → Bool
is_of cb e = e.request_id == cb.request_id && e.cluster == cb.cluster

abbrev pub set_synced : Time → Callback → EventRow → EventRow
set_synced now cb e = record e {
  synced = some cb.synced;
  matched = some cb.matched;
  patched = some cb.patched;
  elapsed_ms = some cb.elapsed_ms;
  synced_at = some now;
}

-- The rows after the UPDATE of ApplyCallback.
unfoldable pub sync_events : Time → Callback → List EventRow → List EventRow
sync_events now cb [] = []
sync_events now cb (e ∷ events) =
    (if is_of cb e then set_synced now cb e else e) ∷ sync_events now cb events

unfoldable pub apply_callback : Callback → M ℕ
apply_callback cb = autocommit update_event_failed (λ now db.
    (length (filter (is_of cb) db.events), record db { events = sync_events now cb db.events }))

abbrev pub max_request_body_bytes : ℕ
max_request_body_bytes = 65_536

-- An HTTP request: the value of the header Authorization, empty where it is missing, and the body.
pub record Request : Type 0 where
  pub authorization : Str
  pub body : Str

abbrev pub bearer : Option Str → Option Str
bearer none = none
bearer (some token) = if token == [] then none else some token

-- The token of a request: what follows the scheme, when that is not empty.
unfoldable pub token_of : Request → Option Str
token_of r = bearer (cut_prefix r.authorization auth_scheme)

abbrev refusal : Result Error Bool → Option ℕ
refusal (err e) = some 500
refusal (ok false) = some 401
refusal (ok true) = none

-- authorize: none where the request may proceed, or the status of the refusal.
unfoldable pub authorize : UuidCast → Request → World → Option ℕ × World
authorize uuid_of r w = elim (token_of r) [
  | none ↦ (some 401, w)
  | some token ↦ let (valid, w') = validate_token uuid_of token w in (refusal valid, w')
]

-- The body as the handler may read it, under http.MaxBytesReader.
unfoldable pub readable : Request → Str
readable r = take max_request_body_bytes r.body

abbrev pub lacks_field : Registration → Bool
lacks_field reg = reg.cluster == [] || reg.url == [] || reg.token == []

abbrev status_of : {A : Type 0} → Result Error A → ℕ
status_of (err e) = 500
status_of (ok a) = 204

unfoldable pub register : Registration → World → ℕ × World
register reg w =
    if lacks_field reg then (400, w) else let (r, w') = upsert_agent reg w in (status_of r, w')

unfoldable pub handle_register : UuidCast → Decoder Registration → Request → World → ℕ × World
handle_register uuid_of decode r w =
    let (refused, w') = authorize uuid_of r w in
    elim refused [
      | some status ↦ (status, w')
      | none ↦ elim (decode (readable r)) [ none ↦ (400, w') | some reg ↦ register reg w' ]
    ]

unfoldable pub sync : Callback → World → ℕ × World
sync cb w =
    if cb.request_id == [] || cb.cluster == []
    then (400, w)
    else let (r, w') = apply_callback cb w in (status_of r, w')

unfoldable pub handle_callback : UuidCast → Decoder Callback → Request → World → ℕ × World
handle_callback uuid_of decode r w =
    let (refused, w') = authorize uuid_of r w in
    elim refused [
      | some status ↦ (status, w')
      | none ↦ elim (decode (readable r)) [ none ↦ (400, w') | some cb ↦ sync cb w' ]
    ]
