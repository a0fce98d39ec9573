-- ===== src/Tests.antt =====
-- Runs of the model on concrete conversations, streams and registries.
mod Data
mod Chats
mod Streams
mod Monitors
mod Watchers
mod Profiles
mod Serving
mod Services
