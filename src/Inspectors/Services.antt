-- ===== src/Inspectors/Services.antt =====
-- inspector_registry.go: the services of the agent and what they depend on.
pub mod Categories
pub mod Groups
pub mod Totals
pub mod Dependencies
