-- ===== src/Inspectors/Leak.antt =====
-- inspector_leak.go: heap snapshots, their comparison, and the types that may leak.
pub mod Snapshots
pub mod Candidates
pub mod Growth
