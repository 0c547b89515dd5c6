-- ===== src/Packet.antt =====
-- network/packet: building, encoding and decoding packets.
pub mod Stream
pub mod Types
pub mod Tag
pub mod Wire
pub mod Encoder
pub mod Decoder
pub mod Codec
pub mod Building
pub mod Examples
