-- ===== src/Registry.antt =====
-- tool_registry.go: the registry of debug tools.
pub mod Value
pub mod Tools
