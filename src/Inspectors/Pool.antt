-- ===== src/Inspectors/Pool.antt =====
-- inspector_pool.go: the registered databases and what is told of their connection pools.
pub mod Stats
pub mod Leaks
pub mod Risk
pub mod Waits
