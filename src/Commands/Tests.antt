-- ===== src/Commands/Tests.antt =====
-- The daemon's start on a small file.
use secret_control_panel.Base.{
  if◌then◌else◌, ◌==◌, nat_eq, list_beq, ok, err, ◌≡◌, refl, ◌↔◌, none, some, [], ◌∷◌,
}
use secret_control_panel.Text.{
  Str, codes, str_eq, trim, trim_left, trim_right, count, has_suffix, trim_suffix, cut_suffix,
  cut_prefix,
}
use secret_control_panel.VaultPath.{normalize}
use secret_control_panel.Sort.Insertion.{insertion, insertion_sort, insert}
use secret_control_panel.Policy.{
  Policy, parse_wildcard, lookup, first_unnamed, add_rule, load_one, load_all, load, duplicate,
}
use secret_control_panel.Agent.Startup.{Config, validate}
use secret_control_panel.Logger.{level_debug, level_info, level_warn, level_error, parse_level}
use secret_control_panel.Commands.Exits.{
  ListenerConfig, run_listener, server_closed, serve_failed, http_server, run_api, ClientGo,
  build_with_client, run_agent, agent_main,
}
use secret_control_panel.Commands.Starting.{RanWell, run_daemon_iff}
use secret_control_panel.Commands.{
  DaemonConfig, Files, load_from_file, load_policies, Postgres, open_db, Workers, canceled, stopped,
  policies_error, store_error, worker_error, db_url_required, run_daemon,
}

abbrev app_rule : Policy
app_rule = record { vault_path = codes "kv/app"; clusters = codes "east" ∷ [] }

-- A file "1" with one policy, and a file "2" with the same policy twice.
abbrev small_files : Files
small_files = record {
  read_file = λ path. ok path;
  decode = λ b. ok (if b == codes "1" then app_rule ∷ [] else app_rule ∷ app_rule ∷ []);
}

abbrev running : Postgres
running = record { new_pool = λ dsn. none; migrate = λ dsn. none }

abbrev interrupted : Workers
interrupted s = (some canceled, some canceled)

abbrev config_for : Str → Str → DaemonConfig
config_for db_url path = record { db_url = db_url; policies_path = path; log_level = codes "info" }

exits :
    (run_daemon insertion small_files running interrupted (config_for [] (codes "1"))
      ≡ some db_url_required)
    × (run_daemon insertion small_files running interrupted (config_for (codes "db") (codes "1"))
        ≡ none)
    × (run_daemon insertion small_files running interrupted (config_for (codes "db") (codes "2"))
        ≡ some (policies_error (store_error (duplicate 1 (codes "kv/app")))))
    × (run_daemon insertion small_files running
          (λ s. (some canceled, some (stopped (codes "x"))))
          (config_for (codes "db") (codes "1"))
        ≡ some (worker_error (codes "x")))
unfolding run_daemon load_policies load_from_file open_db load load_all load_one add_rule
    first_unnamed parse_wildcard count has_suffix trim_suffix cut_suffix cut_prefix normalize trim
    trim_left trim_right insertion_sort insert list_beq lookup
exits = (refl, refl, refl, refl)

run_daemon_iff_example :
    (run_daemon insertion small_files running interrupted (config_for (codes "db") (codes "1"))
      ≡ none)
    ↔ RanWell insertion small_files running interrupted (config_for (codes "db") (codes "1"))
run_daemon_iff_example =
    run_daemon_iff insertion small_files running interrupted (config_for (codes "db") (codes "1"))

-- A client that can be built, and one that has no cluster.
abbrev in_cluster : ClientGo (Unit {0}) (Unit {0})
in_cluster = record { in_cluster_config = ok tt; new_for_config = λ cfg. ok tt }

abbrev outside : ClientGo (Unit {0}) (Unit {0})
outside = record { in_cluster_config = err (codes "x"); new_for_config = λ cfg. ok tt }

abbrev agent_config : Config
agent_config = record {
  listen = codes ":8081";
  url = codes "http://east";
  cluster = codes "east";
  token = codes "t";
  panel_url = codes "http://panel";
  panel_token = codes "u1";
  log_level = codes "info";
}

agent_exits :
    (agent_main in_cluster (λ client addr. server_closed) agent_config ≡ 0)
    × (agent_main in_cluster (λ client addr. serve_failed (codes "in use")) agent_config ≡ 1)
    × (agent_main outside (λ client addr. server_closed) agent_config ≡ 1)
    × (agent_main in_cluster (λ client addr. server_closed) (record agent_config { token = [] })
        ≡ 2)
unfolding agent_main run_agent build_with_client validate list_beq
agent_exits = (refl, refl, refl, refl)

abbrev listener_config : Str → ListenerConfig
listener_config db_url = record { audit_addr = codes ":9090"; db_url = db_url; log_level = [] }

listener_exits :
    (run_listener running (λ c. (canceled, canceled)) (listener_config (codes "db")) ≡ none)
    × (run_listener running
          (λ c. (canceled, stopped (codes "in use")))
          (listener_config (codes "db"))
        ≡ some (worker_error (codes "in use")))
    × (run_listener running (λ c. (canceled, canceled)) (listener_config []) ≡ some db_url_required)
unfolding run_listener open_db list_beq
listener_exits = (refl, refl, refl)

api_exits :
    (run_api running
        (λ addr. server_closed)
        (record { listen = codes ":8080"; db_url = codes "db"; log_level = [] })
      ≡ none)
    × (run_api running
          (λ addr. serve_failed (codes "in use"))
          (record { listen = codes ":8080"; db_url = codes "db"; log_level = [] })
        ≡ some (http_server (codes "in use")))
unfolding run_api open_db list_beq
api_exits = (refl, refl)

-- A level that has no name is info.
levels :
    (parse_level (codes "DEBUG") ≡ level_debug)
    × (parse_level (codes "Warn") ≡ level_warn)
    × (parse_level (codes "error") ≡ level_error)
    × (parse_level (codes "info") ≡ level_info)
    × (parse_level (codes "trace") ≡ level_info)
unfolding parse_level list_beq
levels = (refl, refl, refl, refl, refl)
