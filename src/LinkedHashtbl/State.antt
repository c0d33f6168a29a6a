-- ===== src/LinkedHashtbl/State.antt =====
-- The types of c-hacks/include/c-hacks/linked-hashtbl.h and of c-hacks/src/linked-hashtbl.c.
-- An entry is known by its address, which is the address of its list node as well, since `list` is
-- its first field. A slot's chain of `next` pointers is the list of its entries' addresses.
use cpp_example_code.Base.{ℕ, Bool, List}
use cpp_example_code.Hashtbl.State.{Ptr, Entry}

abbrev pub Addr : Type 0
Addr = ℕ

-- `&h->all_entries`
abbrev pub head : Addr
head = 0

-- `struct l_hashtbl_list_head` at every address of a node
pub record Links : Type 0 where
  pub next : Addr → Addr
  pub prev : Addr → Addr

-- `struct l_hashtbl`, with what is at the addresses of list nodes and of entries (a
-- `struct l_hashtbl_entry` less its two links). A callback that
-- the code only tests for NULL and calls for its effect is the test's answer, and what `evictor_fn`
-- answers is an argument of the insertion.
pub record Linked (D : Type 0) : Type 0 where
  pub links : Links
  pub entries : Addr → Entry
  pub max_load_factor : D
  pub hash_fn : Ptr → ℕ
  pub equals_fn : Ptr → Ptr → Bool
  pub nentries : ℕ
  pub table_size : ℕ
  pub resize_threshold : ℕ
  pub auto_resize : Bool
  pub access_order : Bool
  pub key_free_fn : Bool
  pub val_free_fn : Bool
  pub table : List (List Addr)
