-- ===== src/Banker.antt =====
-- The banker's algorithm, 操作系统算法/银行家算法/banker.c, with what its safety check and its
-- requests guarantee.
pub mod State
pub mod Loops
pub mod Ops
pub mod Scan
pub mod Sequence
pub mod Undo
pub mod Granted
pub mod Request
pub mod Init
mod Tests
