-- ===== src/Inspectors/Endpoints.antt =====
-- inspector_endpoint_test_inspector.go: requests to the program's own endpoints, and which of its
-- routes they cover.
pub mod Client
pub mod Batch
pub mod Marks
pub mod Coverage
