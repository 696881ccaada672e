-- ===== src/Connection.antt =====
-- src/connection/mod.rs: the channels of a connection and the messages about them.
pub mod Channel
pub mod Messages
pub mod Examples
