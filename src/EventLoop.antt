-- ===== src/EventLoop.antt =====
-- The event loop of httptest-geektime/lib: the map from descriptors to channels, the queue of pending changes, the
-- dispatchers over poll and epoll, the set-up of loops and threads, and the choice of a loop for a connection.
pub mod State
pub mod Map
pub mod Poll
pub mod Dispatch
pub mod Ops
pub mod Watch
pub mod Pending
pub mod Tracked
pub mod Applied
pub mod Change
pub mod Pool
pub mod Epoll
pub mod Dispatchers
pub mod Thread
pub mod Made
pub mod Interest
pub mod Unwatch
mod Tests
