-- ===== src/Hashtbl/State.antt =====
-- The types of c-hacks/include/c-hacks/hashtbl.h and of c-hacks/src/hashtbl.c.
-- A `void *` is its address, and a slot's chain of `next` pointers is a list of entries.
use cpp_example_code.Base.{ℕ, ◌+◌, ◌-◌, ◌%◌, ◌^◌, Bool, List}

abbrev pub Ptr : Type 0
Ptr = ℕ

abbrev pub null : Ptr
null = 0

-- What C's `double` gives: the constants and operations that the table uses. `to_int` is the
-- conversion to `int`, as the number below 2 ^ 32 with the same bits.
pub record Doubles (D : Type 0) : Type 0 where
  pub zero : D
  pub half : D
  pub three_quarters : D
  pub one : D
  pub lt : D → D → Bool
  pub of_nat : ℕ → D
  pub add : D → D → D
  pub mul : D → D → D
  pub div : D → D → D
  pub to_int : D → ℕ

pub record Entry : Type 0 where
  pub key : Ptr
  pub val : Ptr
  pub hash : ℕ

abbrev pub Chain : Type 0
Chain = List Entry

-- The calls that reach the client or the allocator, in order.
pub data Call : Type 0 where
  key_free : Ptr → Call
  val_free : Ptr → Call
  free_entry : Entry → Call
  free_table : Call
  free_handle : Call

-- `struct hashtbl`. A callback that the code only tests for NULL and calls for its effect is the
-- test's answer; `table` is empty where the pointer is NULL.
pub record Hashtbl (D : Type 0) : Type 0 where
  pub max_load_factor : D
  pub hash_fn : Ptr → ℕ
  pub equals_fn : Ptr → Ptr → Bool
  pub nentries : ℕ
  pub table_size : ℕ
  pub resize_threshold : ℕ
  pub auto_resize : Bool
  pub key_free_fn : Bool
  pub val_free_fn : Bool
  pub table : List Chain

abbrev pub ulong_mod : ℕ
ulong_mod = 2 ^ 64

-- `h->nentries++` and `h->nentries--` on an unsigned long
abbrev pub inc : ℕ → ℕ
inc n = (n + 1) % ulong_mod

abbrev pub dec : ℕ → ℕ
dec n = (n + ulong_mod - 1) % ulong_mod
