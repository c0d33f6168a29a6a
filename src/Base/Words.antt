-- ===== src/Base/Words.antt =====
-- `bit_or` on numbers without common bits, single bits, and sums of exponents.
use Prim.Native.Nat.{
  ℕ, zero, suc, ◌+◌, ◌*◌, ◌/◌, ◌%◌, ◌^◌, ◌≤◌, ◌<◌, max, bit_and, bit_or, digits, bit_or-bitwise,
}
use mathlib.Core.Path.{◌≡◌, refl, ap}
use native.Mathlib.Omega.{arith}
use native.Mathlib.Nat.{div-div-eq-div-mul, zero-add, suc-add}
use cpp_example_code.Base.Bits.{bit_and_halve, bit_and-zero}
use cpp_example_code.Base.Powers.{pow_double}

abbrev or_digits : ℕ → ℕ → ℕ → ℕ
or_digits n a b = digits (λ b. b) max n a b

or_digits_enough : (n m a b : ℕ) → a ≤ n → a ≤ m → or_digits n a b ≡ or_digits m a b
or_digits_enough zero zero a b p q = refl
or_digits_enough zero (suc m) zero b p q = refl
or_digits_enough zero (suc m) (suc a) b p q = absurd (omega arith)
or_digits_enough (suc n) zero zero b p q = refl
or_digits_enough (suc n) zero (suc a) b p q = absurd (omega arith)
or_digits_enough (suc n) (suc m) zero b p q = refl
or_digits_enough (suc n) (suc m) (suc a) b p q =
    omega (arith, or_digits_enough n m (suc a / 2) (b / 2) (omega arith) (omega arith))

zero-bit_or : (b : ℕ) → bit_or 0 b ≡ b
zero-bit_or b = bit_or-bitwise 0 b

pub bit_or_halve : (a b : ℕ) → bit_or a b ≡ 2 * bit_or (a / 2) (b / 2) + max (a % 2) (b % 2)
bit_or_halve zero b = omega (arith, zero-bit_or b, zero-bit_or (b / 2))
bit_or_halve (suc a) b = omega (
  arith,
  bit_or-bitwise (suc a) b,
  bit_or-bitwise (suc a / 2) (b / 2),
  or_digits_enough a (suc a / 2) (suc a / 2) (b / 2) (omega arith) (omega arith),
)

bit_or-zero_upto : (k a : ℕ) → a ≤ k → bit_or a 0 ≡ a
bit_or-zero_upto k zero h = refl
bit_or-zero_upto zero (suc a) h = absurd (omega arith)
bit_or-zero_upto (suc k) (suc a) h =
    omega (arith, bit_or_halve (suc a) 0, bit_or-zero_upto k (suc a / 2) (omega arith))

-- Bits below `s` and bits from `s` on add up.
pub bit_or_disjoint : (s a b : ℕ) → a < 2 ^ s → bit_or a (b * 2 ^ s) ≡ a + b * 2 ^ s
bit_or_disjoint zero a b h =
    let e : a ≡ 0 = omega arith in rw e (omega (arith, zero-bit_or (b * 2 ^ 0)))
bit_or_disjoint (suc s) a b h =
    let even : b * 2 ^ suc s ≡ 2 * (b * 2 ^ s) =
      omega (arith, ap (λ (t : ℕ). b * t) (pow_double s)) in
    let half : 2 * (b * 2 ^ s) / 2 ≡ b * 2 ^ s = omega arith in
    rw even (
      omega (
        arith,
        rw half at (bit_or_halve a (2 * (b * 2 ^ s))),
        bit_or_disjoint s (a / 2) b (omega (arith, pow_double s)),
      ))

-- `x & (1 << k)` keeps the one bit.
pub bit_and_bit : (k a : ℕ) → bit_and a (2 ^ k) ≡ a / 2 ^ k % 2 * 2 ^ k
bit_and_bit zero a = omega (arith, bit_and_halve a 1, bit_and-zero (a / 2))
bit_and_bit (suc k) a =
    let half : 2 * 2 ^ k / 2 ≡ 2 ^ k = omega arith in
    rw (pow_double k, ← div-div-eq-div-mul a 2 (2 ^ k))
      (omega (arith, rw half at (bit_and_halve a (2 * 2 ^ k)), bit_and_bit k (a / 2)))

pub pow-add : (j k : ℕ) → 2 ^ (j + k) ≡ 2 ^ j * 2 ^ k
pow-add zero k = rw zero-add (omega arith)
pow-add (suc j) k = rw suc-add (
    omega (
      arith,
      pow_double (j + k),
      pow_double j,
      pow-add j k,
      ap (λ (t : ℕ). t * 2 ^ k) (pow_double j),
    ))

pub bit_or-lt : (s a b : ℕ) → a < 2 ^ s → b < 2 ^ s → bit_or a b < 2 ^ s
bit_or-lt zero a b p q = let e : a ≡ 0 = omega arith in rw e (omega (arith, zero-bit_or b))
bit_or-lt (suc s) a b p q = omega (
  arith,
  pow_double s,
  bit_or_halve a b,
  bit_or-lt s (a / 2) (b / 2) (omega (arith, pow_double s)) (omega (arith, pow_double s)),
)
