-- ===== src/Inspectors/Sockets.antt =====
-- inspector_websocket.go: the connections and rooms, and the tools that read them.
pub mod Registry
pub mod Reads
pub mod Members
