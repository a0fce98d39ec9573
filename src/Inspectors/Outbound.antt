-- ===== src/Inspectors/Outbound.antt =====
-- inspector_http_client.go: the transports that count outbound HTTP calls, the registered clients,
-- and the tools that report on both.
pub mod Transport
pub mod Totals
pub mod Clients
pub mod Summary
