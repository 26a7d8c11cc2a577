-- ===== src/Server/Instances.antt =====
-- Model instances: server/src/domain/instances.rs. An instance is external, an address that is only
-- checked, or local, run by the agent of a node.
pub mod Params
pub mod Create
pub mod Run
pub mod Edit
pub mod Check
