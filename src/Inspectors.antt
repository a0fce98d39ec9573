-- ===== src/Inspectors.antt =====
-- The inspectors: the state that each keeps and the answers of its tools.
pub mod Base
pub mod Ring
pub mod Slices
pub mod Errors
pub mod Requests
pub mod Logs
pub mod Jobs
pub mod Sockets
pub mod Flags
pub mod Health
pub mod Ticker
pub mod Outbound
pub mod Config
pub mod Security
pub mod Pool
pub mod Endpoints
pub mod Profile
pub mod Locks
pub mod Leak
pub mod Services
pub mod Migrations
pub mod Caches
