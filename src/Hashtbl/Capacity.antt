-- ===== src/Hashtbl/Capacity.antt =====
-- The sizes of the bucket array: rounding up to a power of two and the index of a hash value.
use cpp_example_code.Base.{ℕ, zero, suc, ◌-◌, ◌*◌, ◌^◌, Bool, bit_and}
use cpp_example_code.Base.Tests.{ltb, leb, ◌==◌, if◌then◌else◌}
use cpp_example_code.Base.Int.{ℤ, pos, negsuc}

abbrev pub max_table_size : ℕ
max_table_size = 2 ^ 30

-- `while (n < x) n <<= 1;` on fuel
unfoldable pub roundup_loop : ℕ → ℕ → ℕ → ℕ
roundup_loop zero n x = n
roundup_loop (suc fuel) n x = let rest = roundup_loop fuel (n * 2) x in if ltb n x then rest else n

-- `x` is below 2 ^ 30 at the one call, and 31 rounds are enough.
unfoldable pub roundup_to_next_power_of_2 : ℕ → ℕ
unfolding roundup_loop
roundup_to_next_power_of_2 x = roundup_loop 31 1 x

unfoldable pub is_power_of_2 : ℕ → Bool
is_power_of_2 x = bit_and x (x - 1) == 0

-- The capacity that `hashtbl_resize` goes on with.
unfoldable pub clamp_capacity : ℤ → ℕ
clamp_capacity (negsuc n) = 1
clamp_capacity (pos c) =
    if ltb c 1
    then 1
    else if leb max_table_size c
    then max_table_size
    else if is_power_of_2 c
    then c
    else roundup_to_next_power_of_2 c

-- `(int)hashval & (h->table_size - 1)`; the table's size is positive wherever the code indexes.
unfoldable pub tbl_index : ℕ → ℕ → ℕ
tbl_index hashval size = bit_and hashval (size - 1)
