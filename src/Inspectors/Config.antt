-- ===== src/Inspectors/Config.antt =====
-- inspector_config.go: the registered configurations, the environment, and the masking of their
-- sensitive values.
pub mod Masking
pub mod Flatten
pub mod Tools
