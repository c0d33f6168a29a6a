-- ===== src/Hashtbl/Keys.antt =====
-- Default and sample key functions of c-hacks/include/c-hacks/hashtbl-funcs.h.
use cpp_example_code.Base.{ℕ, ◌/◌, ◌%◌, ◌^◌, Bool, bit_xor}
use cpp_example_code.Base.Tests.{◌==◌}
use cpp_example_code.Hashtbl.State.{Ptr}

-- `hashtbl_direct_hash`
unfoldable pub direct_hash : Ptr → ℕ
direct_hash k =
    let h = k % 2 ^ 32 in
    let h' = bit_xor h (bit_xor (h / 2 ^ 20) (h / 2 ^ 12)) in
    bit_xor (bit_xor h' (h' / 2 ^ 7)) (h' / 2 ^ 4)

-- `hashtbl_direct_equals`
unfoldable pub direct_equals : Ptr → Ptr → Bool
direct_equals a b = a == b
