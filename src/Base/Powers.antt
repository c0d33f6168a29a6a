-- ===== src/Base/Powers.antt =====
-- Powers of two: masks of ones, and the test `x & (x - 1)`.
use Prim.Native.Nat.{ℕ, zero, suc, ◌+◌, ◌-◌, ◌*◌, ◌/◌, ◌%◌, ◌^◌, ◌≤◌, ◌<◌, bit_and}
use mathlib.Core.Path.{◌≡◌, ◌∙◌}
use native.Mathlib.Omega.{arith}
use native.Mathlib.Decide.{dec_lt}
use native.Mathlib.Nat.{pow-suc, mod_self}
use mathlib.Core.Logic.{◌⊎◌, inl, inr}
use cpp_example_code.Base.Tests.{◌==◌, Bool-cases, ==→eq}
use cpp_example_code.Base.Bits.{bit_and_halve, bit_and_self, bit_and-zero}

pub pow_double : (k : ℕ) → 2 ^ suc k ≡ 2 * 2 ^ k
pow_double k = omega (arith, pow-suc 2 k)

pub pow-pos : (k : ℕ) → 0 < 2 ^ k
pow-pos zero = omega arith
pow-pos (suc k) = omega (arith, pow_double k, pow-pos k)

pub pow_mono : (j k : ℕ) → j ≤ k → 2 ^ j ≤ 2 ^ k
pow_mono zero k h = omega (arith, pow-pos k)
pow_mono (suc j) zero h = absurd (omega arith)
pow_mono (suc j) (suc k) h = omega (arith, pow_double j, pow_double k, pow_mono j k (omega arith))

pub lt_of_pow-lt : (j k : ℕ) → 2 ^ j < 2 ^ k → j < k
lt_of_pow-lt j k h = elim (dec_lt j k) [
  | yes l ↦ l
  | no n ↦ absurd (omega (arith, pow_mono k j (omega arith)))
]

mod_split : (a m : ℕ) → 0 < m → a % (2 * m) ≡ 2 * (a / 2 % m) + a % 2
mod_split a m h = grind arith

-- `a & (2 ^ k - 1)` is the remainder modulo `2 ^ k`.
pub bit_and_mask : (k a : ℕ) → bit_and a (2 ^ k - 1) ≡ a % 2 ^ k
bit_and_mask zero a = omega (arith, bit_and-zero a)
bit_and_mask (suc k) a =
    let double : 2 ^ suc k ≡ 2 * 2 ^ k = pow_double k in
    rw double (
      omega (
        arith,
        pow-pos k,
        bit_and_halve a (2 * 2 ^ k - 1),
        mod_split a (2 ^ k) (pow-pos k),
        rw half_mask at (bit_and_mask k (a / 2)),
      ))
  where
    half_mask : 2 ^ k - 1 ≡ (2 * 2 ^ k - 1) / 2
    half_mask = omega (arith, pow-pos k)

-- Of an even number the test asks about its half.
clear_lowest_even : (y : ℕ) → 0 < y → bit_and (2 * y) (2 * y - 1) ≡ 2 * bit_and y (y - 1)
clear_lowest_even y p =
    let half : 2 * y / 2 ≡ y = omega arith in
    let pred_half : (2 * y - 1) / 2 ≡ y - 1 = omega arith in
    omega (arith, rw (half, pred_half) at (bit_and_halve (2 * y) (2 * y - 1)))

-- Of an odd number it keeps all bits but the lowest.
clear_lowest_odd : (y : ℕ) → bit_and (2 * y + 1) (2 * y) ≡ 2 * y
clear_lowest_odd y =
    let half : (2 * y + 1) / 2 ≡ y = omega arith in
    let pred_half : 2 * y / 2 ≡ y = omega arith in
    omega (arith, rw (half, pred_half) at (bit_and_halve (2 * y + 1) (2 * y)), bit_and_self y)

parity : (x : ℕ) → ((y : ℕ) × (x ≡ 2 * y)) ⊎ ((y : ℕ) × (x ≡ 2 * y + 1))
parity x = elim (Bool-cases (x % 2 == 0)) [
  | inl even ↦ inl (x / 2, omega (arith, ==→eq (x % 2) 0 even))
  | inr odd ↦ inr (x / 2, ground arith)
]

power_of_clear_lowest_upto :
    (n x : ℕ) → x ≤ n → 0 < x → bit_and x (x - 1) ≡ 0 → (k : ℕ) × (x ≡ 2 ^ k)
power_of_clear_lowest_upto zero x le p h = absurd (omega arith)
power_of_clear_lowest_upto (suc n) x le p h = elim (parity x) [
  | inl (y, e) ↦
      let even : bit_and (2 * y) (2 * y - 1) ≡ 0 = rw e at h in
      let (k, power) =
        power_of_clear_lowest_upto n y (omega arith) (omega arith)
          (omega (arith, clear_lowest_even y (omega arith))) in
      (suc k, omega (arith, pow_double k))
  | inr (y, e) ↦
      let odd : bit_and (2 * y + 1) (2 * y + 1 - 1) ≡ 0 = rw e at h in
      let pred : 2 * y + 1 - 1 ≡ 2 * y = omega arith in
      (0, omega (arith, clear_lowest_odd y, rw pred at odd))
]

-- `x & (x - 1)` is zero only at powers of two.
pub power_of_clear_lowest : (x : ℕ) → 0 < x → bit_and x (x - 1) ≡ 0 → (k : ℕ) × (x ≡ 2 ^ k)
power_of_clear_lowest x = power_of_clear_lowest_upto x x (omega arith)

-- ... and at every power of two.
pub clear_lowest_power : (k : ℕ) → bit_and (2 ^ k) (2 ^ k - 1) ≡ 0
clear_lowest_power k = bit_and_mask k (2 ^ k) ∙ mod_self (2 ^ k)
