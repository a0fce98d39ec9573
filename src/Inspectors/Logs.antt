-- ===== src/Inspectors/Logs.antt =====
-- inspector_logging.go: the ring buffer of log entries, what feeds it, and the tools.
pub mod Buffer
pub mod Writer
pub mod Lines
pub mod Levels
