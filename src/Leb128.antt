-- ===== src/Leb128.antt =====
-- LEB128 numbers, c-hacks/src/leb128.c, with what its encoders and decoders guarantee.
pub mod Codec
pub mod Bytes
pub mod Groups
pub mod Unsigned
pub mod Signed
pub mod SignedTrip
pub mod Reads
pub mod Values
mod Tests
