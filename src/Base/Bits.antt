-- ===== src/Base/Bits.antt =====
-- `bit_and` and `bit_or` at variables: the digit recursion, bounds, masks of ones and one bit.
use Prim.Native.Nat.{
  ℕ, zero, suc, ◌+◌, ◌*◌, ◌/◌, ◌%◌, ◌≤◌, min, max, bit_and, bit_or, digits, bit_and-bitwise,
  bit_or-bitwise,
}
use mathlib.Core.Path.{◌≡◌, refl}
use native.Mathlib.Omega.{arith}

abbrev and_digits : ℕ → ℕ → ℕ → ℕ
and_digits n a b = digits (λ b. zero) min n a b

and_digits_enough : (n m a b : ℕ) → a ≤ n → a ≤ m → and_digits n a b ≡ and_digits m a b
and_digits_enough zero zero a b p q = refl
and_digits_enough zero (suc m) zero b p q = refl
and_digits_enough zero (suc m) (suc a) b p q = absurd (omega arith)
and_digits_enough (suc n) zero zero b p q = refl
and_digits_enough (suc n) zero (suc a) b p q = absurd (omega arith)
and_digits_enough (suc n) (suc m) zero b p q = refl
and_digits_enough (suc n) (suc m) (suc a) b p q =
    omega (arith, and_digits_enough n m (suc a / 2) (b / 2) (omega arith) (omega arith))

pub zero-bit_and : (b : ℕ) → bit_and 0 b ≡ 0
zero-bit_and b = bit_and-bitwise 0 b

pub bit_and_halve : (a b : ℕ) → bit_and a b ≡ 2 * bit_and (a / 2) (b / 2) + min (a % 2) (b % 2)
bit_and_halve zero b = omega (arith, zero-bit_and b, zero-bit_and (b / 2))
bit_and_halve (suc a) b = omega (
  arith,
  bit_and-bitwise (suc a) b,
  bit_and-bitwise (suc a / 2) (b / 2),
  and_digits_enough a (suc a / 2) (suc a / 2) (b / 2) (omega arith) (omega arith),
)

bit_and-le_upto : (k a b : ℕ) → a ≤ k → bit_and a b ≤ b
bit_and-le_upto zero zero b h = omega (arith, zero-bit_and b)
bit_and-le_upto zero (suc a) b h = absurd (omega arith)
bit_and-le_upto (suc k) zero b h = omega (arith, zero-bit_and b)
bit_and-le_upto (suc k) (suc a) b h =
    omega (arith, bit_and_halve (suc a) b, bit_and-le_upto k (suc a / 2) (b / 2) (omega arith))

-- A mask bounds the result.
pub bit_and-le : (a b : ℕ) → bit_and a b ≤ b
bit_and-le a b = bit_and-le_upto a a b (omega arith)

bit_and_self_upto : (k a : ℕ) → a ≤ k → bit_and a a ≡ a
bit_and_self_upto zero zero h = refl
bit_and_self_upto zero (suc a) h = absurd (omega arith)
bit_and_self_upto (suc k) zero h = refl
bit_and_self_upto (suc k) (suc a) h =
    omega (arith, bit_and_halve (suc a) (suc a), bit_and_self_upto k (suc a / 2) (omega arith))

pub bit_and_self : (a : ℕ) → bit_and a a ≡ a
bit_and_self a = bit_and_self_upto a a (omega arith)

bit_and-zero_upto : (k a : ℕ) → a ≤ k → bit_and a 0 ≡ 0
bit_and-zero_upto k zero h = refl
bit_and-zero_upto zero (suc a) h = absurd (omega arith)
bit_and-zero_upto (suc k) (suc a) h =
    omega (arith, bit_and_halve (suc a) 0, bit_and-zero_upto k (suc a / 2) (omega arith))

pub bit_and-zero : (a : ℕ) → bit_and a 0 ≡ 0
bit_and-zero a = bit_and-zero_upto a a (omega arith)

abbrev or_digits : ℕ → ℕ → ℕ → ℕ
or_digits n a b = digits (λ b. b) max n a b

or_digits_enough : (n m a b : ℕ) → a ≤ n → a ≤ m → or_digits n a b ≡ or_digits m a b
or_digits_enough zero zero a b p q = refl
or_digits_enough zero (suc m) zero b p q = refl
or_digits_enough zero (suc m) (suc a) b p q = absurd (omega arith)
or_digits_enough (suc n) zero zero b p q = refl
or_digits_enough (suc n) zero (suc a) b p q = absurd (omega arith)
or_digits_enough (suc n) (suc m) zero b p q = refl
or_digits_enough (suc n) (suc m) (suc a) b p q =
    omega (arith, or_digits_enough n m (suc a / 2) (b / 2) (omega arith) (omega arith))

pub zero-bit_or : (b : ℕ) → bit_or 0 b ≡ b
zero-bit_or b = bit_or-bitwise 0 b

pub bit_or_halve : (a b : ℕ) → bit_or a b ≡ 2 * bit_or (a / 2) (b / 2) + max (a % 2) (b % 2)
bit_or_halve zero b = omega (arith, zero-bit_or b, zero-bit_or (b / 2))
bit_or_halve (suc a) b = omega (
  arith,
  bit_or-bitwise (suc a) b,
  bit_or-bitwise (suc a / 2) (b / 2),
  or_digits_enough a (suc a / 2) (suc a / 2) (b / 2) (omega arith) (omega arith),
)

-- The third bit alone.
pub bit_and-four : (a : ℕ) → bit_and a 4 ≡ 4 * (a / 4 % 2)
bit_and-four a = omega (
  arith,
  bit_and_halve a 4,
  bit_and_halve (a / 2) 2,
  bit_and_halve (a / 2 / 2) 1,
  bit_and-zero (a / 2 / 2 / 2),
)

pub bit_or-four : (a : ℕ) → bit_and (bit_or a 4) 4 ≡ 4
bit_or-four a = omega (
  arith,
  bit_and-four (bit_or a 4),
  bit_or_halve a 4,
  bit_or_halve (a / 2) 2,
  bit_or_halve (a / 2 / 2) 1,
)

pub bit_and-clears_four : (a : ℕ) → bit_and (bit_and a 4294967291) 4 ≡ 0
bit_and-clears_four a = omega (
  arith,
  bit_and-four (bit_and a 4294967291),
  bit_and_halve a 4294967291,
  bit_and_halve (a / 2) 2147483645,
  bit_and_halve (a / 2 / 2) 1073741822,
)
