-- ===== src/Audit/Tests.antt =====
-- Records like those of internal/scp/audit/parser_test.go, and the theorems there.
use secret_control_panel.Base.{
  if◌then◌else◌, ◌==◌, ◌!=◌, nat_eq, eq_iff, list_beq, length, all, All, ℤ, pos, Result, ok, err,
  ◌<◌, ◌≡◌, refl, ◌≢◌, true, none, some, List, [], ◌∷◌, reverse, arith,
}
use secret_control_panel.Text.{
  Str, codes, str_eq, cut_prefix, has_prefix, trim_prefix, cut_suffix, trim_suffix,
}
use secret_control_panel.Wire.{Time, SecretEvent, update, delete}
use secret_control_panel.Audit.{RawReq, RawEntry, not_data, sub_path, parse_entry}
use secret_control_panel.Text.Trim.{NoHead}
use secret_control_panel.Text.Space.{
  trim_space, trim_left_space, trim_right_space, trim_any, cut_any,
}
use secret_control_panel.Audit.{DropReason, empty_line, invalid_json, parse_line}
use secret_control_panel.Audit.Socket.{max_socket_line, handle_conn}
use secret_control_panel.Audit.Socket.Framing.{IsLine, framed, all_received, handle_conn-framed}

plain_line : (s : Str) → all (λ c. c != 10) s ≡ true → All (λ c. c ≢ 10) s
plain_line [] h = tt
plain_line (c ∷ s) h = (λ e. ground (arith, eq_iff c 10), plain_line s (ground arith))

sendable :
    (s : Str)
    → all (λ c. c != 10) s ≡ true
    → NoHead 13 (reverse s)
    → length s < max_socket_line
    → IsLine s
sendable s h no_cr short = (plain_line s h, no_cr, short)

abbrev at_zero : Str → Time
at_zero text = 0

abbrev request_for : Str → Str → RawReq
request_for operation path = record {
  id = codes "r1";
  operation = operation;
  mount_type = codes "kv";
  mount_point = codes "kv/";
  path = path;
}

abbrev update_record : RawEntry
update_record = record {
  kind = codes "response";
  time = [];
  error = [];
  request = request_for update (codes "kv/data/app/db");
  response_version = some (pos 3);
}

-- What a delete leaves in the log has no version.
abbrev delete_record : RawEntry
delete_record = record update_record {
  request = request_for delete (codes "kv/data/app/db");
  response_version = none;
}

abbrev app_event : ℤ → Str → SecretEvent
app_event version operation = record {
  time = 0;
  request_id = codes "r1";
  operation = operation;
  mount = codes "kv";
  path = codes "app/db";
  version = version;
}

parsed_records :
    (parse_entry at_zero update_record ≡ ok (app_event (pos 3) update))
    × (parse_entry at_zero delete_record ≡ ok (app_event (pos 0) delete))
    × (parse_entry at_zero
          (record update_record { request = request_for update (codes "kv/metadata/app") })
        ≡ err (not_data (codes "kv/metadata/app")))
unfolding parse_entry sub_path has_prefix trim_prefix cut_prefix trim_suffix cut_suffix list_beq
parsed_records = (refl, refl, refl)

-- A decoder that knows one record.
abbrev knows_update : Str → Result Str RawEntry
knows_update body = if body == codes "{}" then ok update_record else err (codes "invalid")

abbrev three_lines : List Str
three_lines = codes " {} " ∷ codes "oops" ∷ codes "{}" ∷ []

abbrev parse_three : Str → Result DropReason SecretEvent
parse_three = parse_line knows_update at_zero

parsed_lines :
    (parse_three (codes " {} ") ≡ ok (app_event (pos 3) update))
    × (parse_three (codes "oops") ≡ err (invalid_json (codes "invalid")))
    × (parse_three (codes "  ") ≡ err empty_line)
unfolding parse_line parse_entry sub_path trim_space trim_left_space trim_right_space trim_any
    cut_any has_prefix trim_prefix cut_prefix trim_suffix cut_suffix list_beq
parsed_lines = (refl, refl, refl)

handle_conn-framed_example :
    handle_conn parse_three (framed three_lines) [] ≡ all_received parse_three three_lines
handle_conn-framed_example = handle_conn-framed parse_three three_lines (
  sendable (codes " {} ") refl (λ e. omega arith) (omega arith),
  (
    sendable (codes "oops") refl (λ e. omega arith) (omega arith),
    (sendable (codes "{}") refl (λ e. omega arith) (omega arith), tt),
  ),
)
