-- ===== src/Inspectors/Errors.antt =====
-- inspector_error.go: the ring buffer of captured errors, and the tools that read it. The order in
-- which a range meets a map's entries is an argument.
pub mod Capture
pub mod Patterns
pub mod Reads
