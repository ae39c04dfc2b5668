-- ===== src/Server.antt =====
-- crates/caly-server/src: the registry of handshake sessions.
pub mod Sessions
mod Tests
