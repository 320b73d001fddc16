-- ===== src/Audit.antt =====
-- The tamper-evident audit log of packages/shared-tracing/src/audit-logger.ts.
pub mod Json
pub mod Log
pub mod Chain
pub mod Verify
pub mod Tamper
pub mod Merkle
mod Replay
pub mod Inclusion
mod Tests
