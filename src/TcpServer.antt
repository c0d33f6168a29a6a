-- ===== src/TcpServer.antt =====
-- The TCP server of httptest-geektime/lib: its threads, its listening channel, and new connections.
pub mod Ops
pub mod Accept
mod Tests
