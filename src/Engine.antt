-- ===== src/Engine.antt =====
-- engine.go: the loop between the model and the tools, and the sessions.
pub mod Types
pub mod Round
pub mod Loop
pub mod Output
pub mod Invariant
pub mod Rounds
pub mod Run
