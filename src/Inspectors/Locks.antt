-- ===== src/Inspectors/Locks.antt =====
-- inspector_locks.go: the contention and block profiles, the search for deadlocks, and the registered
-- mutexes.
pub mod Sites
pub mod Deadlock
pub mod Flagging
pub mod Tools
