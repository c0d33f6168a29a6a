-- ===== src/Hashtbl/Rounding.antt =====
-- The sizes that `hashtbl_resize` can reach are the powers of two up to 2 ^ 30.
use cpp_example_code.Base.{
  ℕ, zero, suc, ◌+◌, ◌*◌, ◌%◌, ◌^◌, ◌≤◌, ◌<◌, ◌≡◌, refl, inl, inr, true, false, arith,
}
use cpp_example_code.Base.Tests.{ltb, leb, Bool-cases, ==→eq, ltb→lt, ltb_false→le}
use cpp_example_code.Base.Powers.{
  pow_double, pow-pos, lt_of_pow-lt, power_of_clear_lowest, bit_and_mask,
}
use native.Mathlib.Decide.{dec_lt}
use cpp_example_code.Base.Int.{ℤ, pos, negsuc}
use cpp_example_code.Hashtbl.Capacity.{
  max_table_size, roundup_loop, roundup_to_next_power_of_2, is_power_of_2, clamp_capacity,
  tbl_index,
}

-- `r` is a power of two up to the largest table size.
pub record IsSize (r : ℕ) : Type 0 where
  pub exponent : ℕ
  pub power : r ≡ 2 ^ exponent
  pub capped : exponent ≤ 30

-- The least power of two from `x` on: it is less than twice `x`.
pub record IsRounded (x r : ℕ) : Type 0 where
  pub size : IsSize r
  pub reaches : x ≤ r
  pub least : r < 2 * x

roundup_loop-IsRounded :
    (fuel j x : ℕ)
    → j + fuel ≡ 31
    → j ≤ 30
    → x ≤ max_table_size
    → 2 ^ j < 2 * x
    → IsRounded x (roundup_loop fuel (2 ^ j) x)
unfolding roundup_loop
roundup_loop-IsRounded zero j x e cap small low = absurd (omega arith)
roundup_loop-IsRounded (suc fuel) j x e cap small low = elim (Bool-cases (ltb (2 ^ j) x)) [
  | inl more ↦
      let below : 2 ^ j < x = ltb→lt (2 ^ j) x more in
      let next : 2 ^ j * 2 ≡ 2 ^ suc j = omega (arith, pow_double j) in
      rw (more, next)
        (roundup_loop-IsRounded fuel (suc j) x (omega arith) (lt_of_pow-lt j 30 (omega arith)) small
          (omega (arith, pow_double j)))
  | inr done ↦ rw done (record {
    size = record { exponent = j; power = refl; capped = cap };
    reaches = ltb_false→le (2 ^ j) x done;
    least = low;
  })
]

-- `roundup_to_next_power_of_2` ends, within its 31 rounds, at the least power of two from its
-- argument on, for an argument from 1 to 2 ^ 30.
pub roundup-IsRounded :
    (x : ℕ) → 0 < x → x ≤ max_table_size → IsRounded x (roundup_to_next_power_of_2 x)
unfolding roundup_to_next_power_of_2
roundup-IsRounded x p small =
    roundup_loop-IsRounded 31 0 x (omega arith) (omega arith) small (omega arith)

is_power_of_2-IsSize : (x : ℕ) → 0 < x → x < max_table_size → is_power_of_2 x ≡ true → IsSize x
unfolding is_power_of_2
is_power_of_2-IsSize x p small h =
    let (k, e) = power_of_clear_lowest x p (==→eq _ 0 h) in
    let low : 2 ^ k < 2 ^ 30 = omega arith in
    record { exponent = k; power = e; capped = omega (arith, lt_of_pow-lt k 30 low) }

not_small : (c : ℕ) → 0 < c → ltb c 1 ≡ false
not_small c p = ground arith

largest-IsSize : IsSize max_table_size
largest-IsSize = record { exponent = 30; power = refl; capped = omega arith }

largest-IsRounded : (c : ℕ) → c ≡ max_table_size → IsRounded c max_table_size
largest-IsRounded c e = record { size = largest-IsSize; reaches = omega arith; least = omega arith }

-- A positive request up to 2 ^ 30 is rounded up to the least power of two that reaches it.
pub clamp_capacity-IsRounded :
    (c : ℕ) → 0 < c → c ≤ max_table_size → IsRounded c (clamp_capacity (pos c))
unfolding clamp_capacity
clamp_capacity-IsRounded c p small = rw (not_small c p) (elim (Bool-cases (leb max_table_size c)) [
  | inl top ↦ rw top (largest-IsRounded c (ground arith))
  | inr below ↦ rw below (elim (Bool-cases (is_power_of_2 c)) [
    | inl is ↦ rw is (record {
      size = is_power_of_2-IsSize c p (ground arith) is;
      reaches = omega arith;
      least = omega arith;
    })
    | inr not_power ↦ rw not_power (roundup-IsRounded c p small)
  ])
])

above_largest : (c : ℕ) → max_table_size < c → clamp_capacity (pos c) ≡ max_table_size
unfolding clamp_capacity
above_largest c h = ground arith

-- Every request, negative and huge ones included, leads to a power of two up to 2 ^ 30.
pub clamp_capacity-IsSize : (c : ℤ) → IsSize (clamp_capacity c)
clamp_capacity-IsSize (negsuc n) =
    unfold clamp_capacity in record { exponent = 0; power = refl; capped = omega arith }
clamp_capacity-IsSize (pos zero) =
    unfold clamp_capacity in record { exponent = 0; power = refl; capped = omega arith }
clamp_capacity-IsSize (pos (suc n)) = elim (dec_lt max_table_size (suc n)) [
  | yes huge ↦ rw (above_largest (suc n) huge) largest-IsSize
  | no ok ↦ (clamp_capacity-IsRounded (suc n) (omega arith) (omega arith)).size
]

pub IsSize-pos : (r : ℕ) → IsSize r → 0 < r
IsSize-pos r s = omega (arith, pow-pos s.exponent)

-- The index of a hash value is its remainder modulo the table's size.
pub tbl_index-mod : (hashval size : ℕ) → IsSize size → tbl_index hashval size ≡ hashval % size
unfolding tbl_index
tbl_index-mod hashval size s = rw s.power (bit_and_mask s.exponent hashval)
