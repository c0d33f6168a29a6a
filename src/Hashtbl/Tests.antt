-- ===== src/Hashtbl/Tests.antt =====
-- Runs of the table, and its theorems at concrete tables.
use cpp_example_code.Base.{
  ℕ, ◌+◌, ◌*◌, ◌/◌, ◌%◌, ◌≡◌, refl, Bool, true, false, Option, none, some, [], ◌∷◌, ◌++◌, flatten,
  map, arith,
}
use cpp_example_code.Base.Tests.{ltb, ◌==◌}
use cpp_example_code.Base.Int.{pos, negsuc}
use cpp_example_code.Hashtbl.State.{Ptr, Doubles, Hashtbl, val_free, free_table, free_handle}
use cpp_example_code.Hashtbl.Chain.{find_first, unlink_first, assign_first}
use cpp_example_code.Hashtbl.Keys.{direct_hash, direct_equals}
use cpp_example_code.Hashtbl.Capacity.{
  tbl_index, clamp_capacity, roundup_to_next_power_of_2, is_power_of_2,
}
use cpp_example_code.Hashtbl.Ops.{
  find_entry, link_entry, remove_key, transfer_chain, transfer_table, release, clear_chain,
  clear_table, clear, delete, lookup, remove, apply_chain, apply_table, apply, iter_scan, iter_init,
  iter_next, resize_threshold, resize, doubled, grow, insert, clamp_load_factor, create,
}
use cpp_example_code.Hashtbl.Read.{update}
use cpp_example_code.Hashtbl.Rounding.{IsRounded, clamp_capacity-IsRounded, tbl_index-mod}
use cpp_example_code.Hashtbl.Resize.{Models, KeepsMap, resize-KeepsMap}
use cpp_example_code.Hashtbl.Insert.{Inserted, insert-Inserted, lookup-Models, or_null}
use cpp_example_code.Hashtbl.Remove.{Removed, remove-Removed}
use cpp_example_code.Hashtbl.Clear.{Cleared, clear-Cleared, delete-release_all, release_all}
use cpp_example_code.Hashtbl.Create.{Created, create-Created, create-null, direct-IsKeyed}
use cpp_example_code.Hashtbl.Visit.{apply-fold, fold_entries, iterate, iterate-iter_init, binding}

-- load factors in hundredths
abbrev hundredths : Doubles ℕ
hundredths = record {
  zero = 0;
  half = 50;
  three_quarters = 75;
  one = 100;
  lt = ltb;
  of_nat = λ n. n * 100;
  add = λ a b. a + b;
  mul = λ a b. a * b / 100;
  div = λ a b. a * 100 / b;
  to_int = λ d. d / 100;
}

program : Unit {0}
unfolding find_first unlink_first assign_first direct_hash direct_equals tbl_index clamp_capacity
    roundup_to_next_power_of_2 is_power_of_2 find_entry link_entry remove_key transfer_chain
    transfer_table release clear_chain clear_table clear delete lookup remove apply_chain
    apply_table apply iter_scan iter_init iter_next resize_threshold resize doubled grow insert
    clamp_load_factor create iterate
program = tt

-- a table of four slots with the default key functions, which grows and frees keys and values
create-Created_test :
    Created hundredths
      (pos 3)
      75
      true
      none
      none
      true
      true
      (create hundredths true true (pos 3) 75 true none none true true)
create-Created_test = create-Created hundredths (pos 3) 75 true none none true true direct-IsKeyed

create-null_test :
    (create hundredths true false (pos 3) 75 true none none true true ≡ (none, []))
    × (create hundredths false true (pos 3) 75 true none none true true ≡ (none, free_handle ∷ []))
create-null_test = create-null hundredths (pos 3) 75 true none none true true true

abbrev empty : Hashtbl ℕ
empty = create-Created_test.handle

abbrev nothing : Ptr → Option Ptr
nothing _ = none

empty-Models : Models empty nothing
empty-Models = create-Created_test.models

insert-Inserted_example :
    Inserted hundredths empty nothing 7 70 true (insert hundredths false true empty 7 70)
insert-Inserted_example =
    insert-Inserted hundredths empty nothing 7 70 false true empty-Models
      (omega (arith, create-Created_test.counted))

abbrev seven : Hashtbl ℕ
seven = (insert hundredths false true empty 7 70).1

abbrev seven_only : Ptr → Option Ptr
seven_only = update empty.equals_fn nothing 7 (some 70)

seven-Models : Models seven seven_only
seven-Models = insert-Inserted_example.models

lookup-Models_example : lookup seven 8 ≡ or_null (seven_only 8)
lookup-Models_example = lookup-Models seven seven_only 8 seven-Models

remove-Removed_example : Removed seven seven_only 7 (remove seven 7)
remove-Removed_example = remove-Removed seven seven_only 7 seven-Models

resize-KeepsMap_example :
    KeepsMap hundredths true seven seven_only
      (clamp_capacity (pos 9))
      (resize hundredths true seven (pos 9))
resize-KeepsMap_example = resize-KeepsMap hundredths true seven seven_only (pos 9) seven-Models

clear-Cleared_test : Cleared seven (clear seven)
clear-Cleared_test = clear-Cleared seven seven_only seven-Models

delete-release_all_test :
    delete seven ≡ release_all seven (flatten seven.table) ++ (free_table ∷ free_handle ∷ [])
delete-release_all_test = delete-release_all seven seven_only seven-Models

-- a client that adds up the values
abbrev add_value : Ptr → Ptr → ℕ → Bool × ℕ
add_value k v s = (true, s + v)

apply-fold_test :
    apply seven add_value 0 ≡ (fold_entries add_value (flatten seven.table) 0, seven.nentries)
apply-fold_test = apply-fold add_value seven seven_only 0 seven-Models (λ k v s. refl)

iterate-iter_init_example :
    iterate (seven.nentries + 1) seven (iter_init seven) ≡ map binding (flatten seven.table)
iterate-iter_init_example = iterate-iter_init seven seven_only seven-Models

clamp_capacity-IsRounded_example : IsRounded 5 (clamp_capacity (pos 5))
clamp_capacity-IsRounded_example = clamp_capacity-IsRounded 5 (omega arith) (omega arith)

tbl_index-mod_test : tbl_index 77 8 ≡ 77 % 8
tbl_index-mod_test =
    tbl_index-mod 77 8 (record { exponent = 3; power = refl; capped = omega arith })

-- A session on a literal table of two slots: the third key doubles it.
abbrev two_slots : Hashtbl ℕ
two_slots = record {
  max_load_factor = 100;
  hash_fn = λ k. k;
  equals_fn = λ a b. a == b;
  nentries = 0;
  table_size = 2;
  resize_threshold = 2;
  auto_resize = true;
  key_free_fn = false;
  val_free_fn = true;
  table = [] ∷ [] ∷ [];
}

abbrev session : Hashtbl ℕ
session =
    let a = (insert hundredths true true two_slots 1 10).1 in
    let b = (insert hundredths true true a 3 30).1 in (insert hundredths true true b 2 20).1

session_grows :
    ◌≡◌ {A = ℕ × ℕ × Ptr × Ptr}
      (session.table_size, session.nentries, lookup session 3, lookup session 4)
      (4, 3, 30, 0)
unfolding program
session_grows = refl

session_order : iterate 4 session (iter_init session) ≡ (1, 10) ∷ (2, 20) ∷ (3, 30) ∷ []
unfolding program
session_order = refl

overwrite_frees : (insert hundredths true true session 3 33).2 ≡ val_free 30 ∷ []
unfolding program
overwrite_frees = refl

-- at the largest size the automatic resize asks for -2 ^ 31 and keeps the table
doubled_wraps : doubled hundredths (2 * 0x2000_0000) ≡ negsuc 0x7fff_ffff
unfolding program
doubled_wraps = refl
