-- ===== src/Hashtbl.antt =====
-- The chained hash table of c-hacks/src/hashtbl.c, one child module for each part.
pub mod State
pub mod Chain
pub mod Ops
pub mod Capacity
pub mod Keys
pub mod Read
pub mod Slots
pub mod Flat
pub mod Transfer
pub mod Rounding
pub mod Resize
pub mod Insert
pub mod Freed
pub mod Remove
pub mod Clear
pub mod Create
pub mod Visit
pub mod Samples
mod Tests
