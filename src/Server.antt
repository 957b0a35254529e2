-- ===== src/Server.antt =====
-- The server: crates/mentedb-server/src.
pub mod RateLimit
mod Tests
