-- ===== src/Agent/Tests.antt =====
-- The agent on small clusters, and the theorems there.
use secret_control_panel.Base.{
  ltb, if◌then◌else◌, is_some, ◌==◌, nat_eq, list_beq, all, All, pos, ok, ℕ, ◌+◌, ◌*◌, ◌≡◌, refl,
  ◌≢◌, ◌⊎◌, inl, true, false, not, none, some, List, [], ◌∷◌, ◌++◌, le_refl, arith,
}
use secret_control_panel.Text.{Str, str_eq, codes, trim, trim_left, trim_right, cut_prefix}
use secret_control_panel.Text.Space.{
  trim_space, trim_left_space, trim_right_space, trim_any, cut_any, fields_func, fields_from,
}
use secret_control_panel.VaultPath.{normalize, join}
use secret_control_panel.Wire.{SecretEvent, Callback, Registration, second}
use secret_control_panel.Db.Samples.{east, busy_db, calm, event_row, update_to}
use secret_control_panel.Daemon.Store.{PendingEvent, scan_event}
use secret_control_panel.Daemon.Dispatcher.{dispatch_one}
use secret_control_panel.Daemon.Dispatcher.Posting.{post_for, sent}
use secret_control_panel.Db.World.{autocommit}
use secret_control_panel.Api.{
  UuidCast, Decoder, Request, handle_callback, authorize, validate_token, token_of, readable, sync,
  apply_callback,
}
use secret_control_panel.Api.Callbacks.{Reported}
use secret_control_panel.Agent.Selector.{
  is_separator, selector_annotation, selector_matches, Entry, IsEntry, selector_matches-listed,
}
use secret_control_panel.Agent.Patcher.{
  Job, Resource, not_found, Client, text, object, end, field, patch_items, patch_job,
}
use secret_control_panel.Agent.Server.{Server, SyncWatcher, check_auth, handle_events, accept_event}
use secret_control_panel.Agent.Syncer.{
  Watcher, field_of, nested_string, count_synced, all_synced, poll_until_synced, send_callback,
  callback_for, watch,
}
use secret_control_panel.Agent.Syncer.Reporting.{reporting_to, watch-Reported}
use secret_control_panel.Agent.Syncer.Truthful.{Confirmed, watch-Confirmed}
use secret_control_panel.Agent.Syncer.Ending.{IsTimed, watch-total}
use secret_control_panel.Agent.Startup
use secret_control_panel.Agent.Startup.{Config, validate, registration_of}
use secret_control_panel.Agent.Startup.Joining.{run, call, joined-dispatched}

-- The cases of TestSelectorMatches.
selector_cases :
    (selector_matches (codes "secret/a/db") (codes "secret/a/db") ≡ true)
    × (selector_matches (codes "secret/a/db , secret/shared/jwt") (codes "secret/shared/jwt")
        ≡ true)
    × (selector_matches (codes "secret/a/db\nsecret/shared/jwt") (codes "secret/shared/jwt") ≡ true)
    × (selector_matches (codes "secret/a/db/") (codes "secret/a/db") ≡ true)
    × (selector_matches (codes "secret/a/db,secret/b") (codes "secret/b/db") ≡ false)
    × (selector_matches (codes "secret/a/db") [] ≡ false)
    × (selector_matches [] (codes "secret/a/db") ≡ false)
unfolding selector_matches fields_func fields_from trim_space trim_left_space trim_right_space
    trim_any cut_any cut_prefix normalize trim trim_left trim_right list_beq
selector_cases = (refl, refl, refl, refl, refl, refl, refl)

-- " kv/app/ ", and kv/db as it is.
abbrev two_entries : List Entry
two_entries =
    (record {
      before = codes " ";
      slashes_before = [];
      path = codes "kv/app";
      slashes_after = codes "/";
      after = codes " ";
    })
    ∷ (record {
      before = [];
      slashes_before = [];
      path = codes "kv/db";
      slashes_after = [];
      after = [];
    })
    ∷ []

plain : (s : Str) → all (λ c. not (is_separator c)) s ≡ true → All (λ c. is_separator c ≡ false) s
plain [] h = tt
plain (c ∷ s) h = (ground arith, plain s (ground arith))

two_entries-AreEntries : All IsEntry two_entries
two_entries-AreEntries = (
  record {
    before = (inl refl, tt);
    after = (inl refl, tt);
    slashes_before = tt;
    slashes_after = (refl, tt);
    front = (omega arith, omega arith);
    back = (omega arith, omega arith);
    normal = (λ e. omega (arith, e), λ e. omega (arith, e));
    plain = plain (codes "kv/app") refl;
  },
  (
    record {
      before = tt;
      after = tt;
      slashes_before = tt;
      slashes_after = tt;
      front = (omega arith, omega arith);
      back = (omega arith, omega arith);
      normal = (λ e. omega (arith, e), λ e. omega (arith, e));
      plain = plain (codes "kv/db") refl;
    },
    tt,
  ),
)

selector_matches-listed_example : selector_matches (codes " kv/app/ ,kv/db") (codes "kv/app") ≡ true
unfolding list_beq
selector_matches-listed_example =
    selector_matches-listed (codes "kv/app") b',' two_entries (λ e. cc) (inl refl)
      two_entries-AreEntries

-- An ExternalSecret for kv/app, which has been refreshed at a second.
abbrev bound_resource : Str → Resource
bound_resource name = record {
  namespace = codes "default";
  name = name;
  annotations = (selector_annotation, codes "kv/app") ∷ [];
  fields =
      field (codes "metadata")
        (object (
          field (codes "annotations")
            (object (field selector_annotation (text (codes "kv/app")) end)) end))
        (field (codes "status") (object (field (codes "refreshTime") (text (codes "9")) end)) end);
}

-- A cluster whose state is the clock: two resources, of which the second has gone.
abbrev two_resources : List Resource
two_resources = bound_resource (codes "a") ∷ bound_resource (codes "b") ∷ []

abbrev small_cluster : Client ℕ
small_cluster = record {
  list = λ t. (ok two_resources, t);
  patch = λ namespace name trigger t. (if name == codes "b" then some not_found else none, t + 1);
  now = λ t. t;
}

abbrev app_job : Job
app_job = record { vault_path = codes "kv/app"; operation = codes "update"; version = pos 4 }

abbrev clock_text : ℕ → Str
clock_text t = codes "now"

patched_one :
    patch_job small_cluster clock_text app_job 5 ≡ ((record { matched = 2; patched = 1 }, none), 7)
unfolding patch_job patch_items selector_matches fields_func fields_from trim_space trim_left_space
    trim_right_space trim_any cut_any cut_prefix normalize trim trim_left trim_right list_beq
patched_one = refl

abbrev small_server : Server ℕ
small_server = record {
  token = codes "t";
  patcher = patch_job small_cluster clock_text;
  watcher = none;
  now = λ t. t;
}

abbrev to_event : Decoder SecretEvent
to_event body = if body == [] then none else some (update_to 4)

abbrev event_request : Str → Request
event_request token = record { authorization = codes "Bearer " ++ token; body = codes "{}" }

answers :
    ((handle_events small_server to_event (event_request (codes "t")) 5).0 ≡ 202)
    × (handle_events small_server to_event (event_request (codes "u")) 5 ≡ (401, 5))
unfolding handle_events check_auth accept_event patch_job patch_items join selector_matches
    fields_func fields_from trim_space trim_left_space trim_right_space trim_any cut_any cut_prefix
    normalize trim trim_left trim_right list_beq
answers = (refl, refl)

-- The watcher of a server that sets the state to the counts, so that its call is seen.
abbrev noted : SyncWatcher ℕ
noted ev matched patched at t = 1_000 * matched + 100 * patched + at

abbrev small_watcher : Watcher ℕ
small_watcher = record {
  k8s = small_cluster;
  parse_time = λ rt. some (9 * second);
  wait = λ t. (ltb t (30 * second), t + 2 * second);
  post = λ url authorization cb t. (some 204, t);
  cluster = east;
  panel_url = codes "http://panel";
  token = codes "u1";
}

-- A patch at 8.5 seconds: the refresh at 9 confirms it.
abbrev patched_at : ℕ
patched_at = 8_500_000_000

abbrev synced_callback : Callback
synced_callback = callback_for small_watcher (update_to 4) 2 1 true 0

watch-Confirmed_example :
    (synced_callback.request_id ≡ (update_to 4).request_id)
    × (synced_callback.cluster ≡ east)
    × ((synced_callback.synced ≡ false)
        ⊎ Confirmed small_watcher (join (codes "kv") (codes "app")) patched_at)
unfolding watch poll_until_synced all_synced count_synced send_callback nested_string field_of join
    selector_matches fields_func fields_from trim_space trim_left_space trim_right_space trim_any
    cut_any cut_prefix normalize trim trim_left trim_right list_beq
watch-Confirmed_example = watch-Confirmed small_watcher 16 (update_to 4) 2 1 patched_at 5 refl

small-IsTimed : IsTimed small_watcher (5 + 30 * second)
small-IsTimed = record {
  listing = λ t. le_refl t;
  fired = λ t h. omega arith;
  expired = λ t h. ground arith;
}

watch-total_example : is_some (watch small_watcher 16 (update_to 4) 2 1 patched_at 5).0 ≡ true
watch-total_example = watch-total small_watcher (update_to 4) 2 1 patched_at 5 small-IsTimed

abbrev west_agent : Config
west_agent = record {
  listen = codes ":8081";
  url = codes "http://west/";
  cluster = codes "west";
  token = codes "w";
  panel_url = codes "http://panel";
  panel_token = codes "u1";
  log_level = codes "info";
}

abbrev as_is : UuidCast
as_is uuid = some uuid

abbrev to_west : Decoder Registration
to_west body = some (registration_of west_agent)

abbrev as_text : Registration → Str
as_text reg = codes "{}"

abbrev west_event : PendingEvent
west_event = record (scan_event event_row) { cluster = codes "west" }

-- The server of the agent in the west.
abbrev west_server : Server ℕ
west_server = record small_server { token = codes "w" }

joined-dispatched_example :
    ((call as_is to_west as_text west_agent (calm busy_db)).0 ≡ 204)
    × (run as_is to_west as_text west_agent (calm busy_db)
        ≡ (Startup.registered, (call as_is to_west as_text west_agent (calm busy_db)).1))
    × ((dispatch_one west_event (run as_is to_west as_text west_agent (calm busy_db)).1).1.posts
        ≡ sent west_event
            (codes "http://west/")
            (codes "w")
            (run as_is to_west as_text west_agent (calm busy_db)).1)
    × ((handle_events west_server to_event
          (record {
            authorization = (post_for west_event (codes "http://west/") (codes "w")).authorization;
            body = codes "{}";
          })
          5).0
        ≢ 401)
unfolding validate list_beq
joined-dispatched_example =
    joined-dispatched as_is to_west as_text west_agent west_server to_event 5 (calm busy_db)
      west_event (codes "{}") tt refl refl refl refl refl

-- The callback for the event that the panel has.
abbrev reported_callback : Callback
reported_callback = callback_for small_watcher (update_to 2) 2 1 true 0

-- The panel's decoder, where the agent encodes every callback the same.
abbrev to_reported : Decoder Callback
to_reported body = if body == codes "{}" then some reported_callback else none

abbrev to_braces : Callback → Str
to_braces cb = codes "{}"

watch-Reported_example :
    (reported_callback.request_id ≡ (update_to 2).request_id)
    × (reported_callback.cluster ≡ east)
    × All
        (Reported reported_callback)
        (watch
          (reporting_to some to_reported to_braces small_watcher)
          16
          (update_to 2)
          2
          1
          patched_at
          (calm busy_db, 5)).1.0.db.events
    × ((reported_callback.synced ≡ false)
        ⊎ Confirmed
            (reporting_to some to_reported to_braces small_watcher)
            (join (codes "kv") (codes "app"))
            patched_at)
unfolding watch poll_until_synced all_synced count_synced send_callback nested_string field_of join
    selector_matches fields_func fields_from trim_space trim_left_space trim_right_space trim_any
    cut_any cut_prefix normalize trim trim_left trim_right list_beq handle_callback authorize
    validate_token autocommit token_of readable sync apply_callback
watch-Reported_example =
    watch-Reported some to_reported to_braces small_watcher 16 (update_to 2) 2 1 patched_at
      (calm busy_db, 5) (λ got e. ground arith) refl
