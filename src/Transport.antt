-- ===== src/Transport.antt =====
-- src/transport: packets and version lines over a stream, and the key exchange.
pub mod Stream
pub mod Io
pub mod Version
pub mod Kex
pub mod Examples
