-- ===== src/Client.antt =====
-- src/client.rs and src/async_client.rs.
pub mod Config
pub mod Clock
pub mod Network
pub mod Reads
pub mod Retry
pub mod Blocking
pub mod Pooled
