-- ===== src/Dag.antt =====
-- internal/agent/dag: the graph of nodes and its scheduler.
pub mod Types
pub mod Graph
pub mod Backoff
pub mod Worker
pub mod Coordinator
