-- ===== src/Scheduler.antt =====
-- The task scheduler of the orchestrator: when a task may run, its dependencies, retries, policies
-- and stage tasks.
pub mod State
pub mod Gate
pub mod Policy
pub mod Stages
pub mod Tables
pub mod Groups
pub mod Resolve
pub mod Results
pub mod Followups
pub mod Handlers
pub mod Parallel
pub mod Usage
mod Closing
mod Siblings
mod Collapse
mod Flush
mod Refused
mod Critic
mod Arbiter
mod Spawned
mod Accumulated
mod Launch
mod Retry
mod Depth
mod Children
mod Tests
mod ResultTests
