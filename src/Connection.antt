-- ===== src/Connection.antt =====
-- The TCP connection of httptest-geektime/lib: what is written to the socket at once, what waits in
-- the output buffer, and the callbacks.
pub mod Ops
pub mod Open
pub mod Sent
pub mod Handed
pub mod Flushed
pub mod Failing
pub mod Created
pub mod Reading
mod Tests
