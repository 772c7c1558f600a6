-- ===== src/Codec.antt =====
-- src/codec.rs: the checksum, and the wire form of values.
pub mod Crc
pub mod Encode
pub mod Decode
pub mod RoundTrip
