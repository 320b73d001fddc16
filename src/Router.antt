-- ===== src/Router.antt =====
-- The model router: packages/model-router/src/index.ts.
pub mod Hints
pub mod Decision
pub mod Available
mod Tests
