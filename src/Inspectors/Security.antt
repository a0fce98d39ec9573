-- ===== src/Inspectors/Security.antt =====
-- inspector_security.go: the registered auth configurations and session stores.
pub mod Words
pub mod Secrets
pub mod Policy
pub mod Sessions
