-- ===== src/Server.antt =====
-- The server's own state (packages/server/src).
pub mod RateLimit
pub mod Methods
pub mod Adapter
pub mod Streaming
