-- ===== src/Server.antt =====
-- config.go, middleware.go and the script of chat_page.go: the configuration, the HTTP handlers, and the
-- event stream between the engine and the page.
pub mod Sse
pub mod Page
pub mod Transport
pub mod Chunks
pub mod Config
pub mod Handlers
pub mod Serving
