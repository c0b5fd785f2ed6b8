-- ===== src/Agent.antt =====
-- internal/agent and cmd/scp-agent: the cluster-side component. Selector and Patcher are
-- internal/agent/patcher, Server is internal/agent/server, Syncer is internal/agent/syncer, and
-- Startup is cmd/scp-agent/main.go. The Kubernetes API is a parameter, `Client`.
pub mod Selector
pub mod Patcher
pub mod Server
pub mod Syncer
pub mod Startup
pub mod Shutdown
pub mod Tests
