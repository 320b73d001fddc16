-- ===== src/Federation.antt =====
-- The federation bus of packages/federation-bus/src/index.ts: signed requests between swarms, the
-- event log that they share, the peers, and the drift of their task digests.
pub mod Wire
pub mod Signing
pub mod Bus
pub mod Events
pub mod Delivery
pub mod Authentic
pub mod Replay
pub mod Peers
pub mod Drift
mod Silent
pub mod Baseline
mod Tests
