-- ===== src/Agent.antt =====
-- The agent of a node: agent/src.
pub mod Collectors
pub mod Tsv
pub mod Launch
pub mod Docker
pub mod Processes
pub mod Gateway
pub mod Logs
mod Tests
