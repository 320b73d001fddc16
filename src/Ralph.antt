-- ===== src/Ralph.antt =====
-- The persistent worker: packages/shared-skills/src/ralph-loop.ts, and the sessions in
-- packages/shared-projects/src/index.ts.
pub mod Sessions
pub mod Signals
pub mod Iteration
pub mod Loop
mod Steps
mod Progress
mod Slave
mod Tests
