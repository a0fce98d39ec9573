-- ===== src/Inspectors/Profile.antt =====
-- inspector_cpu_profile.go: the CPU profile, its timers, and the functions that it names.
pub mod Parse
pub mod Machine
pub mod Steps
pub mod Timers
