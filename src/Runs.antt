-- ===== src/Runs.antt =====
-- Runs of the orchestrator: their records, their tables, and what starts, ends and recovers them.
pub mod Records
pub mod Store
pub mod Lifecycle
mod Terminal
mod Requeue
mod Interrupted
mod Recovery
mod Shutdown
pub mod Tests
