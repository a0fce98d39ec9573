-- ===== src/Inspectors/Requests.antt =====
-- inspector_http.go: the ring buffer of HTTP requests, and the tools that read it.
pub mod Buffer
pub mod Sorting
pub mod Order
