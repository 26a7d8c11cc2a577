-- ===== src/Server/Runtimes.antt =====
-- The runtime environments of the nodes: server/src/domain/runtimes.rs. The view of an environment
-- has the columns of its row.
pub mod Request
pub mod Check
pub mod Edit
pub mod Laws
