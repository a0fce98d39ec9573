-- ===== src/Compressor.antt =====
-- context_compressor.go: when a conversation is compressed, how it is cut into rounds, and what
-- replaces the older ones.
pub mod Rounds
pub mod Shape
pub mod Summary
pub mod Compress
pub mod Window
pub mod Pairing
