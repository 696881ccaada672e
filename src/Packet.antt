-- ===== src/Packet.antt =====
-- src/packet: message numbers, the wire types and the binary packet.
pub mod Types
pub mod Utf8
pub mod Buf
pub mod Codec
pub mod Numbers
pub mod Examples
