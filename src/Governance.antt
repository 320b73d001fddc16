-- ===== src/Governance.antt =====
-- Governance: laws, compliance, the consensus round and the store of proposals
-- (packages/shared-governance/src).
pub mod Laws
pub mod Compliance
pub mod Store
pub mod Consensus
pub mod Debate
pub mod Verdict
mod Outcome
mod Proposals
mod Tests
