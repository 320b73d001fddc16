-- ===== src/Routing.antt =====
-- The routing of agents to engines (packages/shared-routing/src).
pub mod Roles
pub mod Decision
mod Catalogue
mod Cloud
mod Tests
