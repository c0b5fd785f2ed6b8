-- ===== src/Commands/Exits.antt =====
-- The other commands, from their flags to their exit codes: `run` of cmd/scp-listener/main.go,
-- cmd/scp-api/main.go and cmd/scp-agent/main.go with its `main`, and BuildWithClient of
-- internal/agent/patcher/factory.go. What ends the goroutines, the HTTP servers and client-go are
-- parameters.
use secret_control_panel.Base.{
  if◌then◌else◌, is_some, ◌==◌, nat_eq, Result, ok, err, ℕ, ◌≡◌, ◌↔◌, true, false, Option, none,
  some, [], arith,
}
use secret_control_panel.Text.{Str, str_eq}
use secret_control_panel.Commands.{
  Postgres, OpenError, open_db, WorkerError, canceled, RunError, db_url_required, db_error,
  exit_error,
}
use secret_control_panel.Agent.Startup.{Config, validate}

pub record ListenerConfig : Type 0 where
  pub audit_addr : Str
  pub db_url : Str
  pub log_level : Str

-- How pump and the socket listener end, as the database and the address are.
abbrev pub Goroutines : Type 0
Goroutines = ListenerConfig → WorkerError × WorkerError

-- run of the listener; none is the exit code 0.
unfoldable pub run_listener : Postgres → Goroutines → ListenerConfig → Option RunError
run_listener pg goroutines c =
    if c.db_url == [] then some db_url_required else elim (open_db pg c.db_url) [
      | some e ↦ some (db_error e)
      | none ↦ let (pump_err, s_err) = goroutines c in exit_error (some pump_err, some s_err)
    ]

pub record ApiConfig : Type 0 where
  pub listen : Str
  pub db_url : Str
  pub log_level : Str

-- How ListenAndServe of net/http ends; it always returns an error.
pub data ServeError : Type 0 where
  server_closed : ServeError
  serve_failed : Str → ServeError

-- The HTTP server on an address, until it ends.
abbrev pub HttpServer : Type 0
HttpServer = Str → ServeError

abbrev pub served : ServeError → Option Str
served server_closed = none
served (serve_failed e) = some e

abbrev failure : {E : Type 0} → (Str → E) → Option Str → Option E
failure wrap none = none
failure wrap (some e) = some (wrap e)

pub data ApiError : Type 0 where
  api_db_url_required : ApiError
  api_db_error : OpenError → ApiError
  http_server : Str → ApiError

-- run of the panel API.
unfoldable pub run_api : Postgres → HttpServer → ApiConfig → Option ApiError
run_api pg http_srv c =
    if c.db_url == [] then some api_db_url_required else elim (open_db pg c.db_url) [
      | some e ↦ some (api_db_error e)
      | none ↦ failure http_server (served (http_srv c.listen))
    ]

-- rest.InClusterConfig, and dynamic.NewForConfig with its configuration.
pub record ClientGo (A C : Type 0) : Type 0 where
  pub in_cluster_config : Result Str A
  pub new_for_config : A → Result Str C

pub data BuildError : Type 0 where
  no_cluster_config : Str → BuildError
  no_client : Str → BuildError

unfoldable pub build_with_client : {A C : Type 0} → ClientGo A C → Result BuildError C
build_with_client client_go = elim client_go.in_cluster_config [
  | err e ↦ err (no_cluster_config e)
  | ok cfg ↦ elim (client_go.new_for_config cfg) [ err e ↦ err (no_client e) | ok dyn ↦ ok dyn ]
]

pub data AgentError : Type 0 where
  patcher_init : BuildError → AgentError
  agent_server : Str → AgentError

-- run of the agent; the HTTP server uses the client.
unfoldable pub run_agent :
    {A C : Type 0} → ClientGo A C → (C → HttpServer) → Config → Option AgentError
run_agent client_go http_srv c = elim (build_with_client client_go) [
  | err e ↦ some (patcher_init e)
  | ok client ↦ failure agent_server (served (http_srv client c.listen))
]

-- main of the agent, to the exit code.
unfoldable pub agent_main : {A C : Type 0} → ClientGo A C → (C → HttpServer) → Config → ℕ
agent_main client_go http_srv c =
    if is_some (validate c) then 2 else if is_some (run_agent client_go http_srv c) then 1 else 0

-- The listener exits with code 0 exactly when it has a database URL, the database can be opened, and
-- both of its parts, run on its configuration, have ended with context.Canceled.
pub run_listener_iff :
    (pg : Postgres) (goroutines : Goroutines) (c : ListenerConfig)
    → (run_listener pg goroutines c ≡ none) ↔ (
        ((c.db_url == []) ≡ false)
        × (open_db pg c.db_url ≡ none)
        × (goroutines c ≡ (canceled, canceled)))
unfolding run_listener
run_listener_iff pg goroutines c = (λ h. ground arith, λ h. ground arith)

pub run_api_iff :
    (pg : Postgres) (http_srv : HttpServer) (c : ApiConfig)
    → (run_api pg http_srv c ≡ none) ↔ (
        ((c.db_url == []) ≡ false)
        × (open_db pg c.db_url ≡ none)
        × (http_srv c.listen ≡ server_closed))
unfolding run_api
run_api_iff pg http_srv c = (λ h. ground arith, λ h. ground arith)

-- The exit code of the agent is 2 where a flag is missing.
pub agent_main_cases :
    {A C : Type 0} (client_go : ClientGo A C) (http_srv : C → HttpServer) (c : Config)
    → ((agent_main client_go http_srv c ≡ 2) ↔ (is_some (validate c) ≡ true))
      × ((agent_main client_go http_srv c ≡ 0) ↔ (
          (validate c ≡ none)
          × (client : C) × (build_with_client client_go ≡ ok client)
          × (http_srv client c.listen ≡ server_closed)))
unfolding agent_main run_agent
agent_main_cases client_go http_srv c =
    ((λ h. ground arith, λ h. ground arith), (λ h. ground arith, λ (v, client, b, s). ground arith))
