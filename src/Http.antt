-- ===== src/Http.antt =====
-- The HTTP server of httptest-geektime/lib: requests, and their parser over the input buffer.
pub mod Request
pub mod Scan
pub mod Lines
pub mod Fields
pub mod StatusLine
pub mod Parse
pub mod Response
pub mod Server
pub mod Served
pub mod Exchange
mod Tests
