-- ===== src/Leb128/Bytes.antt =====
-- The masks of leb128.c as arithmetic, and one group added to the value read so far.
use cpp_example_code.Base.{ℕ, ◌+◌, ◌*◌, ◌/◌, ◌%◌, ◌^◌, ◌<◌, ◌≡◌, bit_and, bit_or}
use native.Mathlib.Nat.{mod-eq_of_lt}
use cpp_example_code.Base.Powers.{bit_and_mask}
use cpp_example_code.Base.Words.{bit_or_disjoint, bit_and_bit}
use cpp_example_code.Leb128.Codec.{long_mod, add_group}

pub low_group : (b : ℕ) → bit_and b 0x7f ≡ b % 128
low_group b = bit_and_mask 7 b

pub more_bit : (b : ℕ) → bit_and b 0x80 ≡ b / 128 % 2 * 128
more_bit b = bit_and_bit 7 b

pub sign_bit : (b : ℕ) → bit_and b 0x40 ≡ b / 64 % 2 * 64
sign_bit b = bit_and_bit 6 b

pub set_more_bit : (b : ℕ) → b < 128 → bit_or b 0x80 ≡ b + 128
set_more_bit b h = bit_or_disjoint 7 b 1 h

-- A group that fits is added.
pub add_group_lem :
    (value byte shift : ℕ)
    → value < 2 ^ shift
    → byte % 128 * 2 ^ shift < long_mod
    → add_group value byte shift ≡ value + byte % 128 * 2 ^ shift
unfolding add_group
add_group_lem value byte shift below fits =
    rw (low_group byte, mod-eq_of_lt fits) (bit_or_disjoint shift value (byte % 128) below)
