-- ===== src/Server/AgentTasks.antt =====
-- The queue of agent tasks: server/src/agent_tasks.rs. `Sweep` is the timeout of overdue tasks,
-- `Poll` the long poll of an agent, `Record` the result that it posts. A clock reading is an
-- argument; the proofs are in the other modules below this one.
pub mod Sweep
pub mod Poll
pub mod Record
pub mod Lifecycle
