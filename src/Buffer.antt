-- ===== src/Buffer.antt =====
-- The byte buffer of httptest-geektime/lib/buffer.c, with what its operations do to its bytes.
pub mod Ops
pub mod Bytes
pub mod Room
pub mod Append
pub mod Socket
pub mod Reading
mod Tests
