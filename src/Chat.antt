-- ===== src/Chat.antt =====
-- The conversation: the messages of llm_client.go and the session of chat_session.go.
pub mod Message
pub mod Session
pub mod Protocol
