-- ===== src/Leb128/Signed.antt =====
-- Signed numbers: what is encoded is decoded. A value is its sign and the number `m` that it, or
-- its complement, stands for: `m` itself, or -1 - `m`.
use cpp_example_code.Base.{
  ℕ, zero, suc, ◌+◌, ◌-◌, ◌*◌, ◌/◌, ◌%◌, ◌^◌, ◌≤◌, ◌<◌, ◌≡◌, refl, ap, ◌∙◌, Bool, true, false, not,
  ◌&&◌, some, List, [], ◌∷◌, bit_and, bit_or, arith,
}
use native.Mathlib.Nat.{mul-le-mul_right}
use cpp_example_code.Base.Tests.{leb, ltb, ◌==◌, if◌then◌else◌}
use cpp_example_code.Base.Powers.{pow-pos, pow_mono}
use cpp_example_code.Base.Words.{pow-add, bit_or_disjoint}
use cpp_example_code.Leb128.Codec.{
  long_mod, put, shift_right_7, is_last, encode_s_loop, add_group, sign_extend, decode_s_loop,
}
use cpp_example_code.Leb128.Bytes.{low_group, more_bit, sign_bit, set_more_bit, add_group_lem}
use cpp_example_code.Leb128.Unsigned.{group-lt}

-- the 64-bit pattern, and the group of seven bits, of a sign and a number
abbrev pub word : Bool → ℕ → ℕ
word false m = m
word true m = long_mod - 1 - m

abbrev pub group : Bool → ℕ → ℕ
group false g = g
group true g = 127 - g

group_bound : (s : Bool) (m : ℕ) → group s (m % 128) < 128
group_bound false m = omega arith
group_bound true m = omega arith

word-group : (s : Bool) (m : ℕ) → m < 2 ^ 63 → bit_and (word s m) 0x7f ≡ group s (m % 128)
word-group false m h = low_group m
word-group true m h = omega (arith, low_group (long_mod - 1 - m))

word_shift : (s : Bool) (m : ℕ) → m < 2 ^ 63 → shift_right_7 (word s m) ≡ word s (m / 128)
unfolding shift_right_7
word_shift false m h = ground arith
word_shift true m h = ground arith

-- The loop ends once the sign bit of the group shows the sign of what is left.
word_last :
    (s : Bool) (m : ℕ) → m < 2 ^ 63 → is_last (word s (m / 128)) (group s (m % 128)) ≡ ltb m 64
unfolding is_last
word_last false m h = ground (arith, sign_bit (m % 128))
word_last true m h = ground (arith, sign_bit (127 - m % 128))

pub encode_s_loop_step :
    (s : Bool) (fuel m : ℕ)
    → m < 2 ^ 63
    → encode_s_loop (suc fuel) (word s m) ≡ (
        if ltb m 64
        then put (group s (m % 128)) (some [])
        else put (group s (m % 128) + 128) (encode_s_loop fuel (word s (m / 128))))
unfolding encode_s_loop
encode_s_loop_step s fuel m h =
    rw
      (
        word-group s m h,
        word_shift s m h,
        word_last s m h,
        set_more_bit (group s (m % 128)) (group_bound s m),
      )
      refl

-- the value behind a part that is read
abbrev pub joined : Bool → ℕ → ℕ → ℕ → ℕ
joined false m shift value = value + m * 2 ^ shift
joined true m shift value = value + (long_mod - (m + 1) * 2 ^ shift)

pred_mul : (a b : ℕ) → 0 < a → (a - 1) * b + b ≡ a * b
pred_mul zero b h = absurd (omega arith)
pred_mul (suc a) b h = let e : suc a - 1 ≡ a = omega arith in rw e (omega arith)

-- the bits from `s` on
high_mask : (s : ℕ) → s ≤ 64 → long_mod - 2 ^ s ≡ (2 ^ (64 - s) - 1) * 2 ^ s
high_mask s h =
    let e : 64 - s + s ≡ 64 = omega arith in
    let whole : 2 ^ 64 ≡ 2 ^ (64 - s) * 2 ^ s = rw e at (pow-add (64 - s) s) in
    omega (arith, whole, pred_mul (2 ^ (64 - s)) (2 ^ s) (pow-pos (64 - s)))

extend_high :
    (value s : ℕ)
    → s ≤ 64
    → value < 2 ^ s
    → bit_or value (long_mod - 2 ^ s) ≡ value + (long_mod - 2 ^ s)
extend_high value s h below = rw (high_mask s h) (bit_or_disjoint s value (2 ^ (64 - s) - 1) below)

group_fits : (g shift : ℕ) → g < 128 → shift ≤ 56 → g * 2 ^ shift < long_mod
group_fits g shift small h =
    let le : g ≤ 127 = omega arith in
    omega (arith, mul-le-mul_right (2 ^ shift) le, pow_mono shift 56 h)

group_added :
    (value g shift : ℕ)
    → g < 128
    → shift ≤ 56
    → value < 2 ^ shift
    → add_group value g shift ≡ value + g * 2 ^ shift
group_added value g shift small h below =
    let same : g % 128 ≡ g = omega arith in
    rw same at (add_group_lem value g shift below (rw same (group_fits g shift small h)))

-- a last group below the top one, with the sign of the value
extended :
    (s : Bool) (m value shift : ℕ)
    → m < 64
    → shift ≤ 56
    → value < 2 ^ shift
    → sign_extend (value + group s m * 2 ^ shift) (group s m) (shift + 7) ≡ joined s m shift value
unfolding sign_extend
extended false m value shift small h below = ground (arith, sign_bit m)
extended true m value shift small h below =
    let on : (ltb (shift + 7) 64 && not (bit_and (127 - m) 0x40 == 0)) ≡ true =
      ground (arith, sign_bit (127 - m)) in
    let high =
      extend_high (value + (127 - m) * 2 ^ shift) (shift + 7) (omega arith)
        (group-lt value (127 - m) shift below (omega arith)) in
    let parts : (127 - m) * 2 ^ shift + (m + 1) * 2 ^ shift ≡ 128 * 2 ^ shift = parts_lem in
    rw on (high ∙ omega (arith, parts, pow-add shift 7, pow_mono shift 56 h))
  where
    parts_lem : (127 - m) * 2 ^ shift + (m + 1) * 2 ^ shift ≡ 128 * 2 ^ shift
    parts_lem =
        let e : 127 - m + (m + 1) ≡ 128 = omega arith in
        omega (arith, ap (λ (t : ℕ). t * 2 ^ shift) e)

pub last_s :
    (s : Bool) (m value shift : ℕ) (rest : List ℕ)
    → m < 64
    → shift ≤ 56
    → value < 2 ^ shift
    → decode_s_loop (group s m ∷ rest) shift value ≡ some (joined s m shift value, rest)
unfolding decode_s_loop
last_s s m value shift rest small h below =
    let byte = small_group s m small in
    let in_word : leb 64 shift ≡ false = ground arith in
    let done : (bit_and (group s m) 0x80 == 0) ≡ true = ground (arith, more_bit (group s m)) in
    rw (in_word, done, group_added value (group s m) shift byte h below)
      (ap (λ v. some (v, rest)) (extended s m value shift small h below))
  where
    small_group : (s : Bool) (m : ℕ) → m < 64 → group s m < 128
    small_group false m h = omega arith
    small_group true m h = omega arith

-- the last byte in the top group, of which one bit counts
pub top_s :
    (s : Bool) (value : ℕ) (rest : List ℕ)
    → value < 2 ^ 63
    → decode_s_loop (group s 0 ∷ rest) 63 value ≡ some (joined s 0 63 value, rest)
unfolding decode_s_loop add_group sign_extend
top_s false value rest below = ap (λ v. some (v, rest)) (bit_or_disjoint 63 value 0 below)
top_s true value rest below = ap (λ v. some (v, rest)) (bit_or_disjoint 63 value 1 below)

pub inner_s :
    (s : Bool) (m value shift : ℕ) (rest : List ℕ)
    → shift ≤ 56
    → value < 2 ^ shift
    → decode_s_loop ((group s (m % 128) + 128) ∷ rest) shift value
      ≡ decode_s_loop rest (shift + 7) (value + group s (m % 128) * 2 ^ shift)
unfolding decode_s_loop
inner_s s m value shift rest h below =
    let g = group s (m % 128) in
    let small = group_bound s m in
    let in_word : leb 64 shift ≡ false = ground arith in
    let more : (bit_and (g + 128) 0x80 == 0) ≡ false = ground (arith, more_bit (g + 128)) in
    let same : (g + 128) % 128 ≡ g = omega arith in
    let added : add_group value (g + 128) shift ≡ value + g * 2 ^ shift =
      rw same at
        (add_group_lem value (g + 128) shift below (rw same (group_fits g shift small h))) in
    rw (in_word, more, added) refl
