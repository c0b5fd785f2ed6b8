-- ===== src/Audit.antt =====
-- internal/scp/audit/parser.go: what the panel takes from a line of Vault's audit log. json.Unmarshal
-- and time.Parse are parameters: `decode` gives a record or its error, and `parse_time` the time of a
-- text, or the zero time where it is not one.
pub mod Records
pub mod Socket
pub mod Tests
use secret_control_panel.Base.{
  ltb, leb, nat_beq, if◌then◌else◌, leb_iff, nat_beq_iff, Bool-cases, Option-cases, is_some, ◌==◌,
  ◌!=◌, nat_eq, eq_iff, eq_refl, ne_of_beq, beq_of_ne, list_beq, list_beq_iff, Eq, length, take,
  any, all, filter, find?, All, length-append, All-append, All-mem, All-of-mem, All-perm, mem-perm,
  All-take, All-map, mem-filter, mem_of-filter, length-filter-le, length-filter-lt, pos_part,
  neg_part, ◌≤ℤ◌, leb_ℤ, ℤ, pos, negsuc, ◌>>=◌, ◌>>◌, >>=-ok, Result, ok, err, Pairs, Pairs-take,
  Pairs-filter, Pairs-perm, Pairs-map, Pairs-of-map, Pairs-eq, Pairs-append-one, ℕ, zero, suc, ◌+◌,
  ◌-◌, ◌*◌, ◌%◌, ◌^◌, ◌≤◌, ◌<◌, min, max, ◌≡◌, refl, sym, ap, subst, ◌∙◌, ◌≢◌, ◌↔◌, ◌⊎◌, inl, inr,
  Bool, true, false, false≢true, not, ◌&&◌, ◌||◌, Option, none, some, List, [], ◌∷◌, ◌++◌, map,
  reverse, Memᴰ, Permᴰ, le_antisymm, le_trans, le_refl, arith,
}
use secret_control_panel.Text.{Str, codes, str_eq, has_prefix, trim_prefix, trim_suffix}
use secret_control_panel.Text.Space.{trim_space}
use secret_control_panel.Wire.{Time, SecretEvent, Operation, create, update, patch, delete}

pub record RawReq : Type 0 where
  pub id : Str
  pub operation : Str
  pub mount_type : Str
  pub mount_point : Str
  pub path : Str

pub record RawEntry : Type 0 where
  pub kind : Str
  pub time : Str
  pub error : Str
  pub request : RawReq
  pub response_version : Option ℤ

-- Why a record is dropped.
pub data DropReason : Type 0 where
  empty_line : DropReason
  invalid_json : Str → DropReason
  not_response : Str → DropReason
  response_error : Str → DropReason
  non_kv : Str → DropReason
  other_operation : Str → DropReason
  not_data : Str → DropReason

abbrev pub is_write : Operation → Bool
is_write op = op == create || op == update || op == patch || op == delete

-- A record with no response has version 0, as one whose response has no version.
abbrev pub version_in : Option ℤ → ℤ
version_in none = pos 0
version_in (some version) = version

-- The path of the request below its mount.
unfoldable pub sub_path : Str → RawReq → Str
sub_path mount r = trim_prefix r.path (mount ++ codes "/")

unfoldable pub parse_entry : (Str → Time) → RawEntry → Result DropReason SecretEvent
parse_entry parse_time raw =
    let mount = trim_suffix raw.request.mount_point (codes "/") in
    let path = sub_path mount raw.request in
    if raw.kind != codes "response"
    then err (not_response raw.kind)
    else if raw.error != []
    then err (response_error raw.error)
    else if raw.request.mount_type != codes "kv"
    then err (non_kv raw.request.mount_type)
    else if not (is_write raw.request.operation)
    then err (other_operation raw.request.operation)
    else if not (has_prefix path (codes "data/"))
    then err (not_data raw.request.path)
    else ok (record {
      time = parse_time raw.time;
      request_id = raw.request.id;
      operation = raw.request.operation;
      mount = mount;
      path = trim_prefix path (codes "data/");
      version = version_in raw.response_version;
    })

-- parseLine: an event, or why the line is dropped.
unfoldable pub parse_line :
    (Str → Result Str RawEntry) → (Str → Time) → Str → Result DropReason SecretEvent
parse_line decode parse_time s =
    let trimmed = trim_space s in
    if trimmed == [] then err empty_line else elim (decode trimmed) [
      | err message ↦ err (invalid_json message)
      | ok raw ↦ parse_entry parse_time raw
    ]
