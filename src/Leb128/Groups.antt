-- ===== src/Leb128/Groups.antt =====
-- The number that groups of seven bits stand for, and one group put on top of a value in a word of 64 bits.
use cpp_example_code.Base.{
  ℕ, ◌+◌, ◌-◌, ◌*◌, ◌/◌, ◌%◌, ◌^◌, ◌≤◌, ◌<◌, ◌≡◌, sym, ap, ◌∙◌, List, [], ◌∷◌, bit_or, arith,
}
use native.Mathlib.Nat.{mod-eq_of_lt, mod-add-div, add-mul-mod_self_right, mod-lt, mul-le-mul_right}
use cpp_example_code.Base.Powers.{pow-pos, pow_mono}
use cpp_example_code.Base.Words.{bit_or_disjoint, pow-add}
use cpp_example_code.Leb128.Codec.{long_mod, add_group}
use cpp_example_code.Leb128.Bytes.{low_group}

-- the low seven bits of each byte, the first byte's lowest
abbrev pub groups : List ℕ → ℕ
groups [] = 0
groups (b ∷ bytes) = b % 128 + 128 * groups bytes

split_scaled : (g m p : ℕ) → g * p ≡ g % m * p + g / m * (m * p)
split_scaled g m p = ap (λ (t : ℕ). t * p) (sym (mod-add-div g m)) ∙ omega arith

below_word : (x value m p : ℕ) → x < m → value < p → value + x * p < m * p
below_word x value m p small below = omega (arith, mul-le-mul_right p (add_one small))
  where
    add_one : x < m → x + 1 ≤ m
    add_one h = omega arith

-- a value of fewer than `p` and a multiple of `p`, in a word of `m * p`
wraps : (g value m p : ℕ) → 0 < m → value < p → (value + g * p) % (m * p) ≡ value + g % m * p
wraps g value m p room below =
    ap (λ t. (value + t) % (m * p)) (split_scaled g m p)
    ∙ ap (λ t. t % (m * p)) (omega arith)
    ∙ add-mul-mod_self_right (value + g % m * p) (g / m) (m * p)
    ∙ mod-eq_of_lt (below_word (g % m) value m p (mod-lt g room) below)

-- A group that is put on top of a value is added to it in the word.
pub add_group_wraps :
    (value byte shift : ℕ)
    → shift < 64
    → value < 2 ^ shift
    → add_group value byte shift ≡ (value + byte % 128 * 2 ^ shift) % long_mod
unfolding add_group
add_group_wraps value byte shift near below =
    let k = 64 - shift in
    let g = byte % 128 in
    let p = 2 ^ shift in
    let width : k + shift ≡ 64 = omega arith in
    let word : 2 ^ k * p ≡ long_mod = sym (pow-add k shift) ∙ ap (λ t. 2 ^ t) width in
    let kept : g * p % long_mod ≡ g % 2 ^ k * p =
      ap (λ t. g * p % t) (sym word)
      ∙ ap (λ t. t % (2 ^ k * p)) (omega arith)
      ∙ wraps g 0 (2 ^ k) p (pow-pos k) (pow-pos shift)
      ∙ omega arith in
    ap (λ t. bit_or value (t * p % long_mod)) (low_group byte)
    ∙ ap (bit_or value) kept
    ∙ bit_or_disjoint shift value (g % 2 ^ k) below
    ∙ sym (wraps g value (2 ^ k) p (pow-pos k) below)
    ∙ ap (λ t. (value + g * p) % t) word

-- One group more: the other bytes' number stands seven bits higher.
pub groups_more :
    (value byte shift : ℕ) (bytes : List ℕ)
    → (value + byte % 128 * 2 ^ shift) + groups bytes * 2 ^ (shift + 7)
      ≡ value + groups (byte ∷ bytes) * 2 ^ shift
groups_more value byte shift bytes = rw (pow-add shift 7) (omega arith)

-- While a further shift is below 64, the word has room for the group.
pub add_group_fits :
    (value byte shift : ℕ)
    → shift + 7 < 64
    → value < 2 ^ shift
    → (value + byte % 128 * 2 ^ shift < 2 ^ (shift + 7))
      × (add_group value byte shift ≡ value + byte % 128 * 2 ^ shift)
add_group_fits value byte shift near below =
    let low : value + byte % 128 * 2 ^ shift < 2 ^ (shift + 7) =
      rw (pow-add shift 7)
        (omega (arith, below_word (byte % 128) value 128 (2 ^ shift) (omega arith) below)) in
    let word : 2 ^ (shift + 7) ≤ long_mod = pow_mono (shift + 7) 64 (omega arith) in
    (
      low,
      add_group_wraps value byte shift (omega arith) below
          ∙ mod-eq_of_lt (omega (arith, low, word)),
    )
