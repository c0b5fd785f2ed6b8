-- ===== src/Daemon.antt =====
-- internal/scp/daemon: the worker side of the panel. Store is its view of the database, Processor
-- turns tasks into events, Backoff and Dispatcher deliver the events to the agents, and Wakeups is
-- how a notification wakes the processor.
pub mod Store
pub mod Processor
pub mod Backoff
pub mod Dispatcher
pub mod Wakeups
pub mod Tests
