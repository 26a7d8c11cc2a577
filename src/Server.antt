-- ===== src/Server.antt =====
-- The server of the platform: server/src. Its parts are the modules below this one.
pub mod Policy
pub mod Serde
pub mod Tables
pub mod Exec
pub mod Config
pub mod Support
pub mod InstanceView
pub mod AgentTasks
pub mod TaskRequest
pub mod Waiting
pub mod Runtimes
pub mod Instances
pub mod Reconcile
pub mod Trash
pub mod ModelFiles
pub mod Models
pub mod Gateway
pub mod Logs
pub mod Listings
pub mod Sessions
pub mod Users
pub mod Routes
mod Tests
