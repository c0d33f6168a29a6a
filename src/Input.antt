-- ===== src/Input.antt =====
-- The blocking reads of httptest-geektime/lib/read.c: a number of bytes, lines, and messages with a
-- header.
pub mod Socket
pub mod Ops
pub mod Readn
pub mod Messages
pub mod Lines
pub mod Endings
mod Tests
