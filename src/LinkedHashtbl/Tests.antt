-- ===== src/LinkedHashtbl/Tests.antt =====
-- Runs of the linked table, and its theorems at concrete tables.
use cpp_example_code.Base.{
  ℕ, ◌+◌, ◌*◌, ◌/◌, ◌≡◌, refl, true, false, Option, none, some, List, [], ◌∷◌, ◌++◌, map, arith,
}
use mathlib.Core.Option.{some-injective}
use cpp_example_code.Base.Tests.{ltb, ◌==◌, if◌then◌else◌}
use cpp_example_code.Base.Int.{pos, negsuc}
use cpp_example_code.Hashtbl.State.{
  Ptr, Doubles, Entry, Call, val_free, free_entry, free_table, free_handle,
}
use cpp_example_code.Hashtbl.Keys.{direct_hash, direct_equals}
use cpp_example_code.Hashtbl.Capacity.{
  tbl_index, clamp_capacity, is_power_of_2, roundup_to_next_power_of_2,
}
use cpp_example_code.Hashtbl.Ops.{resize_threshold, doubled, clamp_load_factor}
use cpp_example_code.Hashtbl.Read.{update}
use cpp_example_code.Hashtbl.Create.{direct-IsKeyed}
use cpp_example_code.Hashtbl.Insert.{or_null}
use cpp_example_code.Hashtbl.Visit.{fold_entries}
use cpp_example_code.LinkedHashtbl.State.{Addr, Links, Linked}
use cpp_example_code.LinkedHashtbl.Ring.{list_init, list_add_before, list_remove}
use cpp_example_code.LinkedHashtbl.Ops.{
  find_node, unlink_node, walk, l_apply_nodes, place, l_find_entry, record_access, l_remove_key,
  l_remove, l_lookup, l_link, evict, l_clear_loop, l_clear, l_delete, l_count, l_capacity, l_apply,
  is_forward, l_iter_init, l_iter_next, l_resize, l_grow, l_settle, l_insert, l_create,
  l_load_factor,
}
use cpp_example_code.LinkedHashtbl.View.{Keeps}
use cpp_example_code.LinkedHashtbl.Access.{accessed, OnlyLinks, l_lookup-Keeps}
use cpp_example_code.LinkedHashtbl.Change.{linked-Keeps, Gone, l_remove-Gone}
use cpp_example_code.LinkedHashtbl.Walk.{
  l_apply-fold, l_iterate, node_binding, l_iterate-l_iter_init, reversed,
}
use cpp_example_code.LinkedHashtbl.Resize.{LinkedResized, l_resize-LinkedResized}
use cpp_example_code.LinkedHashtbl.Insert.{Inserted, l_insert-Inserted, entered}
use cpp_example_code.LinkedHashtbl.Clear.{Cleared, l_clear-Cleared, IsReleased, l_delete-IsReleased}
use cpp_example_code.LinkedHashtbl.Create.{LinkedCreated, l_create-LinkedCreated}

-- load factors in hundredths
abbrev hundredths : Doubles ℕ
hundredths = record {
  zero = 0;
  half = 50;
  three_quarters = 75;
  one = 100;
  lt = ltb;
  of_nat = λ n. n * 100;
  add = λ a b. a + b;
  mul = λ a b. a * b / 100;
  div = λ a b. a * 100 / b;
  to_int = λ d. d / 100;
}

program : Unit {0}
unfolding doubled is_power_of_2 roundup_to_next_power_of_2 direct_hash direct_equals tbl_index
    clamp_capacity resize_threshold clamp_load_factor list_init list_add_before list_remove
    find_node unlink_node walk l_apply_nodes place l_find_entry record_access l_remove_key l_remove
    l_lookup l_link evict l_clear_loop l_clear l_delete l_count l_capacity l_apply l_iter_init
    l_iter_next l_resize l_grow l_settle l_insert l_create l_load_factor l_iterate
program = tt

abbrev blank_links : Links
blank_links = record { next = λ a. 0; prev = λ a. 0 }

abbrev blank_entries : Addr → Entry
blank_entries a = record { key = 0; val = 0; hash = 0 }

-- a table of four slots in access order, with the default key functions, which grows and frees keys
-- and values
l_create-LinkedCreated_test :
    LinkedCreated hundredths blank_links blank_entries
      (pos 3)
      75
      true
      true
      none
      none
      true
      true
      (λ granted allocated.
        l_create hundredths granted allocated blank_links blank_entries
          (pos 3)
          75
          true
          true
          none
          none
          true
          true)
l_create-LinkedCreated_test =
    l_create-LinkedCreated hundredths blank_links blank_entries (pos 3) 75 true true none none true
      true direct-IsKeyed

abbrev empty : Linked ℕ
empty = l_create-LinkedCreated_test.handle

abbrev nothing : Ptr → Option Ptr
nothing _ = none

-- with the entry 7 ↦ 70 at the address 1
abbrev seven : Linked ℕ
seven = entered empty 7 70 1

abbrev seven_only : Ptr → Option Ptr
seven_only = update empty.equals_fn nothing 7 (some 70)

seven-Keeps : Keeps seven (1 ∷ []) seven_only
seven-Keeps =
    linked-Keeps empty [] nothing l_create-LinkedCreated_test.keeps 1
      (record { key = 7; val = 70; hash = empty.hash_fn 7 }) refl (omega arith) refl refl
      (omega (arith, l_create-LinkedCreated_test.counted))

-- a second entry at the address 2, for which the evictor answers
l_insert-Inserted_example :
    Inserted hundredths seven
      (1 ∷ [])
      seven_only
      8
      80
      (some 2)
      true
      (l_insert hundredths true (some 2) true seven 8 80)
unfolding l_link
l_insert-Inserted_example =
    l_insert-Inserted hundredths true (some 2) true seven (1 ∷ []) seven_only 8 80 seven-Keeps
      (λ a e. let same = some-injective 2 a e in ground arith)
      (omega (arith, l_create-LinkedCreated_test.counted))

l_lookup-Keeps_example :
    ((l_lookup seven 7).0 ≡ or_null (seven_only 7))
    × Keeps (l_lookup seven 7).1 (accessed seven 7 (1 ∷ [])) seven_only
    × OnlyLinks seven (l_lookup seven 7).1
l_lookup-Keeps_example = l_lookup-Keeps seven (1 ∷ []) seven_only seven-Keeps 7

l_remove-Gone_example : Gone seven (1 ∷ []) seven_only seven-Keeps 7 (l_remove seven 7)
l_remove-Gone_example = l_remove-Gone seven (1 ∷ []) seven_only seven-Keeps 7

l_resize-LinkedResized_example :
    LinkedResized hundredths true seven
      (1 ∷ [])
      seven_only
      (clamp_capacity (pos 9))
      (l_resize hundredths true seven (pos 9))
l_resize-LinkedResized_example =
    l_resize-LinkedResized hundredths true seven (1 ∷ []) seven_only (pos 9) seven-Keeps

-- links that lead nowhere
abbrev scribbled : Links
scribbled = record { next = λ a. 999; prev = λ a. 999 }

l_clear-Cleared_example : Cleared seven (1 ∷ []) seven_only seven-Keeps (l_clear scribbled seven)
l_clear-Cleared_example = l_clear-Cleared seven (1 ∷ []) seven_only seven-Keeps scribbled

l_delete-IsReleased_test :
    (calls : List Call) × (l_delete scribbled seven
      ≡ some (calls ++ (free_table ∷ free_handle ∷ [])))
    × IsReleased seven (1 ∷ []) calls
l_delete-IsReleased_test = l_delete-IsReleased seven (1 ∷ []) seven_only seven-Keeps scribbled

-- a client that adds up the values
abbrev add_value : Ptr → Ptr → ℕ → ℕ × ℕ
add_value k v s = (1, s + v)

l_apply-fold_test :
    l_apply seven add_value 0
    ≡ some (
      fold_entries (λ k v s. (true, (add_value k v s).1)) (map seven.entries (1 ∷ [])) 0,
      seven.nentries,
    )
l_apply-fold_test = l_apply-fold add_value seven (1 ∷ []) seven_only 0 seven-Keeps (λ k v s. refl)

l_iterate-l_iter_init_test :
    l_iterate (seven.nentries + 1) seven (l_iter_init seven (negsuc 0))
    ≡ map (node_binding seven) (if is_forward (negsuc 0) then 1 ∷ [] else reversed (1 ∷ []))
l_iterate-l_iter_init_test = l_iterate-l_iter_init seven (1 ∷ []) seven_only (negsuc 0) seven-Keeps

-- A session on a literal table of two slots in access order: the third key doubles it.
abbrev two_slots : Linked ℕ
two_slots = record {
  links = blank_links;
  entries = blank_entries;
  max_load_factor = 100;
  hash_fn = λ k. k;
  equals_fn = λ a b. a == b;
  nentries = 0;
  table_size = 2;
  resize_threshold = 2;
  auto_resize = true;
  access_order = true;
  key_free_fn = false;
  val_free_fn = true;
  table = [] ∷ [] ∷ [];
}

-- the table after an insertion that ends
abbrev table_of : Linked ℕ → Option (ℕ × Linked ℕ × List Call) → Linked ℕ
table_of h none = h
table_of h (some (status, after, calls)) = after

abbrev one_key : Linked ℕ
one_key = table_of two_slots (l_insert hundredths true (some 10) false two_slots 1 100)

abbrev two_keys : Linked ℕ
two_keys = table_of one_key (l_insert hundredths true (some 20) false one_key 2 200)

doubled_test : two_keys.table ≡ [] ∷ (10 ∷ []) ∷ (20 ∷ []) ∷ [] ∷ []
unfolding program
doubled_test = refl

forwards_test : l_iterate 3 two_keys (l_iter_init two_keys (pos 1)) ≡ (2, 200) ∷ (1, 100) ∷ []
unfolding program
forwards_test = refl

backwards_test : l_iterate 3 two_keys (l_iter_init two_keys (pos 0)) ≡ (1, 100) ∷ (2, 200) ∷ []
unfolding program
backwards_test = refl

accessed_test :
    (let (v, h) = l_lookup two_keys 1 in v ∷ map (λ b. b.0) (l_iterate 3 h (l_iter_init h (pos 1))))
    ≡ 100 ∷ 1 ∷ 2 ∷ []
unfolding program
accessed_test = refl

abbrev three_keys : Linked ℕ
three_keys = table_of two_keys (l_insert hundredths true (some 30) true two_keys 3 300)

evicted_test : l_iterate 3 three_keys (l_iter_init three_keys (pos 1)) ≡ (3, 300) ∷ (2, 200) ∷ []
unfolding program
evicted_test = refl

deleted_test :
    l_delete scribbled three_keys
    ≡ some (
        val_free 300
        ∷ free_entry (record { key = 3; val = 300; hash = 3 })
        ∷ val_free 200
        ∷ free_entry (record { key = 2; val = 200; hash = 2 })
        ∷ free_table
        ∷ free_handle
        ∷ [])
unfolding program
deleted_test = refl
