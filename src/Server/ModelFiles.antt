-- ===== src/Server/ModelFiles.antt =====
-- The files of the models on the nodes: server/src/domain/model_files.rs.
pub mod View
pub mod Verify
pub mod Edit
pub mod Summary
pub mod Laws
