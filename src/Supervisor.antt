-- ===== src/Supervisor.antt =====
-- The supervisor of the agents of a swarm and its registry of tasks.
pub mod Registry
pub mod Agents
mod Limits
mod Targets
pub mod Cancel
mod Tests
