-- ===== src/Operator.antt =====
-- Commands of operators (apps/orchestrator/src/operator).
pub mod Intents
pub mod Actions
mod RoundTrip
mod Effects
mod Tests
