-- ===== src/Lib.antt =====
-- The secret control panel: a model of its control plane.
--
-- Agents in the clusters register with the panel (internal/scp/api). The listener reads the audit log
-- of Vault and queues a task for each new version of a secret (internal/scp/listener). The daemon
-- turns a task into one event per cluster that the policy names (internal/scp/daemon/processor.go,
-- internal/scp/policy) and POSTs the events to the agents, with retries
-- (internal/scp/daemon/dispatcher.go). These parts share a PostgreSQL database and nothing else. An
-- agent (internal/agent) touches the resources of its cluster that name the path of an event, watches
-- them until they are refreshed, and calls the panel back.
--
-- Files, by part:
--   Base       tests, lists, integers and results that the other files share.
--   Text       what the program uses of Go's package strings; a text is a list of bytes.
--   VaultPath  internal/shared/vaultpath/vaultpath.go: Normalize, Join, Split.
--   Sort       what sort.Slice promises, as an interface, and an implementation of it.
--   Policy     internal/scp/policy/store.go: Load (`load`), parseWildcard (`parse_wildcard`),
--              Resolve (`resolve`), Size (`size`), List (`listing`).
--   Wire       internal/shared/wire/wire.go.
--   Db         internal/scp/db/db.go: the tables; Db/World has the surroundings of the program.
--   Listener   internal/scp/listener/store.go: Ingest (`ingest`), and Interleaved has
--              concurrent calls of it; cmd/scp-listener/main.go: pump, and Intake has its channel;
--              Deletions goes from parseLine to Ingest.
--   Daemon     internal/scp/daemon: Store is store.go (FanoutTask is `fanout_task`, FetchPending
--              `fetch_pending`), Processor is processor.go (drainTasks is `drain_tasks`), Backoff
--              and Dispatcher are dispatcher.go (dispatchOne is `dispatch_one`), and Wakeups is
--              listen.go (Subscribe is `subscribe`) with the loop of RunProcessor in small steps.
--   Audit      internal/scp/audit/parser.go: parseLine (`parse_line`); Audit/Socket is handleConn of
--              internal/scp/audit/socket_listener.go.
--   Agent      internal/agent and cmd/scp-agent/main.go: Selector and Patcher are patcher/k8s.go
--              (Patch is `patch_job`), Server is server/server.go, Syncer is syncer/syncer.go,
--              Startup is validate and registerWithPanel of main.go, and Shutdown is the end of run.
--   Api        internal/scp/api/store.go and server.go: the two handlers.
--   Logger     internal/shared/logger/logger.go: parseLevel (`parse_level`).
--   Pipeline   a change on its way through the listener, the processor and the dispatcher.
--   Commands   cmd/scp-daemon/main.go: run (`run_daemon`) and loadPolicies (`load_policies`);
--              internal/scp/policy/yaml.go: LoadFromFile; internal/scp/db/db.go: Open (`open_db`);
--              Starting says when the daemon exits with code 0.
--              Exits has run of the other commands and BuildWithClient of
--              internal/agent/patcher/factory.go; Stopping has the goroutines of
--              cmd/scp-listener/main.go and of Run of internal/scp/audit/socket_listener.go, and
--              Winding those of cmd/scp-daemon/main.go.
--
-- State. A `World` is the database, the clock, and what the surroundings will do: how each of the
-- next calls of the database ends (done, refused, or done with the reply lost) and how each POST
-- ends. An operation is a function of the world. A transaction has its effect at its commit or not
-- at all, and is not interleaved with another one but in Listener/Interleaved and, between the
-- transactions of drainTasks, in Daemon/Wakeups; the sequences behind ids never go back. Theorems
-- without the hypothesis `Smooth` hold for every pattern of failing calls.
--
-- Bounds. The integers of the database and of the wire are unbounded: nothing is computed with them
-- but the number of attempts, which stays at most 5. The backoff is computed on 64-bit words. The
-- loops of drainTasks and drainPending have no bound in the program, so they take fuel; where no call
-- of the database fails, more fuel than there are tasks is enough for drainTasks, and more than
-- `all_rounds` of the events for drainPending. The poll loop of the agent's watcher takes fuel too,
-- of which 16 is enough. A database that goes on refusing FanoutTask keeps the loop of drainTasks
-- running.
--
-- Not modelled: PostgreSQL, pgx, net/http, encoding/json, yaml.v3 and the Kubernetes client, which
-- are outside the repository (the uuid cast, the decoders, the clock, the timers, the file system
-- and the Kubernetes API are parameters of the definitions that use them, and what net and net/http
-- do at a shutdown is in the steps of Agent/Shutdown and Commands/Stopping); what is logged, the
-- flags, and the routing of net/http.
pub mod Base
pub mod Text
pub mod VaultPath
pub mod Sort
pub mod Policy
pub mod Wire
pub mod Db
pub mod Listener
pub mod Logger
pub mod Daemon
pub mod Agent
pub mod Api
pub mod Audit
pub mod Pipeline
pub mod Commands
