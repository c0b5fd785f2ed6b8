-- ===== src/Listener/Tests.antt =====
-- Ingest on small databases, and the theorems there.
use secret_control_panel.Base.{
  nat_eq, list_beq, length, ◌≤ℤ◌, ℤ, pos, Result, ok, ℕ, zero, suc, ◌≡◌, refl, ◌≢◌, none, some,
  List, [], ◌∷◌, arith,
}
use secret_control_panel.Wire.{SecretEvent}
use secret_control_panel.Db.World.{statement, transaction}
use secret_control_panel.Db.Samples.{update_to, busy_db, calm, shaky}
use secret_control_panel.Listener.{
  dropped_old_version, version_of, upsert, insert_task_row, advance, ingest_body, ingest, pump,
}
use secret_control_panel.Listener.Watermark.{queued_versions_increase}
use secret_control_panel.Listener.Deletions.{unversioned-dropped}
use secret_control_panel.Wire.{delete, SecretEvent}
use secret_control_panel.Listener.Interleaved.{
  Stage, ready, checked, ended, Race, move_to, lock, write, Turns, start, turn, raced-AtLeast,
}
use secret_control_panel.Listener.Interleaved.Overtaking.{first_calls-overtake}
use secret_control_panel.Text.{
  Str, codes, str_eq, trim_suffix, trim_prefix, has_prefix, cut_suffix, cut_prefix,
}
use secret_control_panel.Audit.{DropReason, RawEntry, parse_entry, sub_path}
use secret_control_panel.Audit.Socket.{handle_conn, handle_lines, scan_lines, scan_from}
use secret_control_panel.Listener.Intake.{
  Flow, streams, put_back, send, receive, ingested, flow_start, flow_on,
}
use secret_control_panel.Listener.Intake.Fifo.{IsFifo, events_of, reached-IsFifo}
use secret_control_panel.Listener.Refinement.{Run, view, pump-Run}

stale_version_dropped : ingest (update_to 3) (calm busy_db) ≡ (ok dropped_old_version, calm busy_db)
unfolding ingest ingest_body transaction statement version_of list_beq
stale_version_dropped = refl

queued_versions_increase_example : ¬ (pos 6 ≤ℤ pos 4)
unfolding ingest ingest_body transaction statement version_of upsert list_beq advance
    insert_task_row pump
queued_versions_increase_example =
    queued_versions_increase (update_to 4) (update_to 6) (update_to 5 ∷ []) (calm busy_db) refl refl
      refl refl

-- The record of a delete of kv/app.
abbrev delete_record : RawEntry
delete_record = record {
  kind = codes "response";
  time = [];
  error = [];
  request = record {
    id = codes "r9";
    operation = delete;
    mount_type = codes "kv";
    mount_point = codes "kv/";
    path = codes "kv/data/app";
  };
  response_version = none;
}

abbrev delete_event : SecretEvent
delete_event = record {
  time = 0;
  request_id = codes "r9";
  operation = delete;
  mount = codes "kv";
  path = codes "app";
  version = pos 0;
}

delete_record-parsed : parse_entry (λ t. 0) delete_record ≡ ok delete_event
unfolding parse_entry sub_path trim_suffix trim_prefix has_prefix cut_suffix cut_prefix list_beq
delete_record-parsed = refl

unversioned-dropped_example :
    (ingest delete_event (pump (update_to 4 ∷ []) (calm busy_db)).1).1.db.tasks
    ≡ (pump (update_to 4 ∷ []) (calm busy_db)).1.db.tasks
unfolding version_of list_beq
unversioned-dropped_example =
    unversioned-dropped (λ t. 0) delete_record (update_to 4 ∷ []) (calm busy_db) 3 refl
      delete_record-parsed refl

pump-Run_example :
    Run
      (update_to 3 ∷ update_to 4 ∷ [])
      (pump (update_to 3 ∷ update_to 4 ∷ []) (shaky busy_db)).0
      (view busy_db)
      (view (pump (update_to 3 ∷ update_to 4 ∷ []) (shaky busy_db)).1.db)
pump-Run_example = pump-Run (update_to 3 ∷ update_to 4 ∷ []) (shaky busy_db)

-- Calls for versions 5, 4, 4 and so on of one path.
abbrev calls_from_5 : ℕ → Stage
calls_from_5 zero = ready (update_to 5)
calls_from_5 (suc i) = ready (update_to 4)

abbrev known_path : Race
known_path = record { stored = some (pos 3); holder = none; stage = calls_from_5 }

abbrev new_path : Race
new_path = record known_path { stored = none }

abbrev written_path : Race
written_path = record {
  stored = some (pos 5);
  holder = none;
  stage = move_to 0 ended (move_to 0 (checked (update_to 5)) calls_from_5);
}

none_checked : (i : ℕ) (ev : SecretEvent) → calls_from_5 i ≢ checked ev
none_checked zero ev e = absurd (ground arith)
none_checked (suc i) ev e = absurd (ground arith)

raced-AtLeast_example : (v : ℤ) × (some (pos 5) ≡ some v) × (pos 3 ≤ℤ v)
raced-AtLeast_example = raced-AtLeast (pos 3) known_path written_path refl none_checked (
    turn (turn start (lock 0 (update_to 5) (pos 3) refl refl refl refl))
      (write 0 (update_to 5) refl refl))

first_calls-overtake_example :
    (t u : Race) × Turns new_path t
    × (t.stored ≡ some (pos 5))
    × Turns t u
    × (u.stored ≡ some (pos 4))
first_calls-overtake_example =
    first_calls-overtake new_path 0 1 (update_to 5) (update_to 4) (λ e. absurd (omega (arith, e)))
      refl refl refl refl

-- A line stands for the version of its length.
abbrev by_length : Str → Result DropReason SecretEvent
by_length line = ok (update_to (length line))

-- Two connections or more, with the versions 4 and 5 each.
abbrev two_lines : ℕ → List SecretEvent
two_lines = streams by_length (λ i. codes "four\nfiver\n")

two_lines_read : two_lines 7 ≡ update_to 4 ∷ update_to 5 ∷ []
unfolding handle_conn handle_lines scan_lines scan_from
two_lines_read = refl

-- The first event of connection 7 is in the database, and pump is at that of connection 2.
abbrev flowing : Flow
flowing = record {
  unsent = put_back 2 (update_to 5 ∷ []) (put_back 7 (update_to 5 ∷ []) two_lines);
  channel = [];
  in_hand = some (2, update_to 4);
  pumped = (7, update_to 4) ∷ [];
  world = (ingest (update_to 4) (calm busy_db)).1;
}

reached-IsFifo_example :
    IsFifo two_lines (calm busy_db) flowing
    × Run
        (events_of flowing.pumped)
        (pump (events_of flowing.pumped) (calm busy_db)).0
        (view busy_db)
        (view flowing.world.db)
unfolding handle_conn handle_lines scan_lines scan_from
reached-IsFifo_example = reached-IsFifo two_lines (calm busy_db) flowing (
    flow_on
      (flow_on
        (flow_on
          (flow_on (flow_on flow_start (send 7 (update_to 4) (update_to 5 ∷ []) refl (omega arith)))
            (receive (7, update_to 4) [] refl refl))
          (send 2 (update_to 4) (update_to 5 ∷ []) refl (omega arith)))
        (ingested (7, update_to 4) refl))
      (receive (2, update_to 4) [] refl refl))
