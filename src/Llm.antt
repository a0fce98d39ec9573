-- ===== src/Llm.antt =====
-- llm_client.go: the client of the chat API.
pub mod Types
pub mod Chunks
pub mod Fragments
pub mod Calls
pub mod Retry
pub mod Delay
pub mod Stream
pub mod Handler
pub mod Client
