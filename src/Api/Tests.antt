-- ===== src/Api/Tests.antt =====
-- The two handlers on a small database, and the theorems there.
use secret_control_panel.Base.{if◌then◌else◌, ◌==◌, nat_eq, pos, true, none, some, []}
use secret_control_panel.Text.{str_eq, codes}
use secret_control_panel.Wire.{Registration, Callback}
use secret_control_panel.Db.Samples.{event_row, east, west, busy_db, shaky}
use secret_control_panel.Api.{UuidCast, Decoder, Request}
use secret_control_panel.Daemon.Store.{scan_event}
use secret_control_panel.Daemon.Dispatcher.{dispatch_one}
use secret_control_panel.Daemon.Dispatcher.Rows.{Tried}
use secret_control_panel.Api.Commuting.{synced_db, dispatch_one-synced}

-- A cast that takes every text for a uuid, and decoders that know one body.
abbrev as_is : UuidCast
as_is text = some text

abbrev west_registration : Registration
west_registration = record { cluster = west; url = codes "http://west"; token = codes "w" }

abbrev east_callback : Callback
east_callback = record {
  request_id = codes "r2";
  cluster = east;
  synced = true;
  matched = pos 1;
  patched = pos 1;
  elapsed_ms = pos 7;
}

abbrev to_registration : Decoder Registration
to_registration body = if body == [] then none else some west_registration

abbrev to_callback : Decoder Callback
to_callback body = if body == [] then none else some east_callback

abbrev good : Request
good = record { authorization = codes "Bearer u1"; body = codes "{}" }

abbrev bad : Request
bad = record { authorization = codes "Bearer u2"; body = codes "{}" }

dispatch_one-synced_example :
    Tried
      (scan_event event_row)
      (synced_db 9 east_callback busy_db)
      (synced_db 9 east_callback (dispatch_one (scan_event event_row) (shaky busy_db)).1.db)
dispatch_one-synced_example =
    dispatch_one-synced 9 east_callback (scan_event event_row) (shaky busy_db)
