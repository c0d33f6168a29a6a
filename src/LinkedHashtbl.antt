-- ===== src/LinkedHashtbl.antt =====
-- The hash table of c-hacks/src/linked-hashtbl.c, whose entries also stand on one doubly linked
-- list, with what its operations do to the map and to the order.
pub mod State
pub mod Ring
pub mod Ops
pub mod Slots
pub mod View
pub mod Order
pub mod Access
pub mod Change
pub mod Walk
pub mod Resize
pub mod Insert
pub mod Clear
pub mod Create
mod Tests
