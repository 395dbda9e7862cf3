-- ===== src/Server.antt =====
-- mini-redis/src/server.rs: accepting connections and shutting down.
pub mod Accept
pub mod Listener
pub mod System
pub mod Session
