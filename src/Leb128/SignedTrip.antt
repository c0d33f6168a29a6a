-- ===== src/Leb128/SignedTrip.antt =====
-- The signed round trip.
use cpp_example_code.Base.{
  ℕ, zero, suc, ◌+◌, ◌-◌, ◌*◌, ◌/◌, ◌%◌, ◌^◌, ◌≤◌, ◌<◌, ◌≡◌, refl, ap, ◌∙◌, ◌⊎◌, inl, inr, Bool,
  true, false, Option, some, List, [], ◌∷◌, ◌++◌, arith,
}
use native.Mathlib.Nat.{pow-suc, div-add-mod, mul-le-mul_right}
use native.Mathlib.Decide.{dec_lt}
use cpp_example_code.Base.Tests.{lt→ltb, le→ltb_false}
use cpp_example_code.Base.Lists.{All}
use cpp_example_code.Base.Powers.{lt_of_pow-lt}
use cpp_example_code.Base.Words.{pow-add}
use cpp_example_code.Leb128.Codec.{
  long_mod, put, encode_s_loop, encode_l, encode_ll, decode_s_loop, decode_l, decode_ll,
}
use cpp_example_code.Leb128.Unsigned.{group-lt}
use cpp_example_code.Leb128.Signed.{word, group, joined, encode_s_loop_step, last_s, top_s, inner_s}

-- What the encoder wrote for a part of a value, from bit `shift` on, behind the bits in `value`.
pub record Encodes (s : Bool) (m shift value : ℕ) (out : Option (List ℕ)) : Type 0 where
  pub bytes : List ℕ
  pub written : out ≡ some bytes
  pub read :
      (rest : List ℕ)
      → decode_s_loop (bytes ++ rest) shift value ≡ some (joined s m shift value, rest)
  pub octets : All (λ b. b < 256) bytes

last_shift : (shift : ℕ) → shift ≤ 63 → shift % 7 ≡ 0 → (shift ≤ 56) ⊎ (shift ≡ 63)
last_shift shift le seven = elim (dec_lt 56 shift) [
  | yes top ↦ inr (omega arith)
  | no low ↦ inl (omega arith)
]

group_octet : (s : Bool) (m : ℕ) → group s (m % 128) + 128 < 256
group_octet false m = omega arith
group_octet true m = omega arith

last-Encodes :
    (s : Bool) (m shift value : ℕ)
    → m < 64
    → shift ≤ 63
    → shift % 7 ≡ 0
    → value < 2 ^ shift
    → m < 2 ^ (63 - shift)
    → Encodes s m shift value (put (group s m) (some []))
last-Encodes s m shift value small le seven below room = elim (last_shift shift le seven) [
  | inl low ↦ record {
    bytes = group s m ∷ [];
    written = refl;
    read = λ rest. last_s s m value shift rest small low below;
    octets = (octet s, tt);
  }
  | inr top ↦
      let none_left : m ≡ 0 = (let one : m < 2 ^ (63 - 63) = rw top at room in omega arith) in
      rw (top, none_left)
        (record {
          bytes = group s 0 ∷ [];
          written = refl;
          read = λ rest. top_s s value rest (rw top at below);
          octets = (zero_octet s, tt);
        })
]
  where
    octet : (s : Bool) → group s m < 256
    octet false = omega arith
    octet true = omega arith

    zero_octet : (s : Bool) → group s 0 < 256
    zero_octet false = omega arith
    zero_octet true = omega arith

joined_step :
    (s : Bool) (m shift value : ℕ)
    → shift ≤ 56
    → m < 2 ^ (63 - shift)
    → joined s (m / 128) (shift + 7) (value + group s (m % 128) * 2 ^ shift)
      ≡ joined s m shift value
joined_step false m shift value low room = omega (
  arith,
  ap (λ (t : ℕ). t * 2 ^ shift) (div-add-mod m 128),
  ap (λ (t : ℕ). m / 128 * t) (pow-add shift 7),
)
joined_step true m shift value low room = omega (arith, flip, upper, whole, fits)
  where
    flip : (127 - m % 128) * 2 ^ shift + m % 128 * 2 ^ shift ≡ 127 * 2 ^ shift
    flip =
        let e : 127 - m % 128 + m % 128 ≡ 127 = omega arith in
        omega (arith, ap (λ (t : ℕ). t * 2 ^ shift) e)

    upper : (m / 128 + 1) * 2 ^ (shift + 7) ≡ 128 * (m / 128 * 2 ^ shift) + 128 * 2 ^ shift
    upper = omega (arith, ap (λ (t : ℕ). (m / 128 + 1) * t) (pow-add shift 7))

    whole : m * 2 ^ shift ≡ 128 * (m / 128 * 2 ^ shift) + m % 128 * 2 ^ shift
    whole = omega (arith, ap (λ (t : ℕ). t * 2 ^ shift) (div-add-mod m 128))

    fits : (m / 128 + 1) * 2 ^ (shift + 7) ≤ 2 ^ 63
    fits =
        let split : 56 - shift + 7 ≡ 63 - shift = omega arith in
        let sum : 56 - shift + (shift + 7) ≡ 63 = omega arith in
        let room' : m < 2 ^ (56 - shift) * 2 ^ 7 = rw (← pow-add (56 - shift) 7, split) room in
        let part : m / 128 + 1 ≤ 2 ^ (56 - shift) = omega arith in
        let total : 2 ^ 63 ≡ 2 ^ (56 - shift) * 2 ^ (shift + 7) =
          rw sum at (pow-add (56 - shift) (shift + 7)) in
        omega (arith, mul-le-mul_right (2 ^ (shift + 7)) part)

inner-Encodes :
    (s : Bool) (m shift value : ℕ) (out : Option (List ℕ))
    → shift ≤ 56
    → value < 2 ^ shift
    → m < 2 ^ (63 - shift)
    → Encodes s (m / 128) (shift + 7) (value + group s (m % 128) * 2 ^ shift) out
    → Encodes s m shift value (put (group s (m % 128) + 128) out)
inner-Encodes s m shift value out low below room next = rw next.written (record {
  bytes = (group s (m % 128) + 128) ∷ next.bytes;
  written = refl;
  read = λ rest.
      inner_s s m value shift (next.bytes ++ rest) low below
      ∙ next.read rest
      ∙ ap (λ t. some (t, rest)) (joined_step s m shift value low room);
  octets = (group_octet s m, next.octets);
})

encode_s_loop-Encodes :
    (s : Bool) (fuel m shift value : ℕ)
    → m < 64 * 128 ^ fuel
    → m < 2 ^ 63
    → shift ≤ 63
    → shift % 7 ≡ 0
    → value < 2 ^ shift
    → m < 2 ^ (63 - shift)
    → Encodes s m shift value (encode_s_loop (suc fuel) (word s m))
encode_s_loop-Encodes s zero m shift value enough word_m le seven below room =
    let same : m % 128 ≡ m = omega arith in
    rw (encode_s_loop_step s 0 m word_m, lt→ltb m 64 (omega arith), same)
      (last-Encodes s m shift value (omega arith) le seven below room)
encode_s_loop-Encodes s (suc fuel) m shift value enough word_m le seven below room =
    rw (encode_s_loop_step s (suc fuel) m word_m) (elim (dec_lt m 64) [
      | yes small ↦
          let same : m % 128 ≡ m = omega arith in
          rw (lt→ltb m 64 small, same) (last-Encodes s m shift value small le seven below room)
      | no large ↦
          let many : 64 ≤ m = omega arith in
          let low : shift ≤ 56 = omega (arith, lt_of_pow-lt 6 (63 - shift) (omega arith)) in
          let split : 63 - (shift + 7) + 7 ≡ 63 - shift = omega arith in
          let room' : m < 2 ^ (63 - (shift + 7)) * 2 ^ 7 =
            rw (← pow-add (63 - (shift + 7)) 7, split) room in
          rw (le→ltb_false m 64 many) (
            inner-Encodes s m shift value _ low below room (
              encode_s_loop-Encodes s fuel (m / 128) (shift + 7)
                (value + group s (m % 128) * 2 ^ shift) (omega (arith, pow-suc 128 fuel))
                (omega arith) (omega arith) (omega arith)
                (group-lt value (group s (m % 128)) shift below (group-small s m)) (omega arith)))
    ])
  where
    group-small : (s : Bool) (m : ℕ) → group s (m % 128) < 128
    group-small false m = omega arith
    group-small true m = omega arith

-- What `leb128_encode_l` and `leb128_decode_l` promise for the pattern of a signed 64-bit value.
pub record IsSignedEncoding (v : ℕ) (out : Option (List ℕ)) (decode : List ℕ → Option (ℕ × List ℕ))
    : Type 0 where
  pub bytes : List ℕ
  pub written : out ≡ some bytes
  pub read : (rest : List ℕ) → decode (bytes ++ rest) ≡ some (v, rest)
  pub octets : All (λ b. b < 256) bytes

signed_encoding :
    (s : Bool) (m : ℕ)
    → m < 2 ^ 63
    → joined s m 0 0 ≡ word s m
    → IsSignedEncoding (word s m) (encode_s_loop 10 (word s m)) (λ buf. decode_s_loop buf 0 0)
signed_encoding s m small whole =
    let e =
      encode_s_loop-Encodes s 9 m 0 0 (omega arith) small (omega arith) refl (omega arith)
        (omega arith) in
    record {
      bytes = e.bytes;
      written = e.written;
      read = λ rest. e.read rest ∙ ap (λ t. some (t, rest)) whole;
      octets = e.octets;
    }

signed_trip :
    (v : ℕ) → v < long_mod → IsSignedEncoding v (encode_s_loop 10 v) (λ buf. decode_s_loop buf 0 0)
signed_trip v fits = elim (dec_lt v (2 ^ 63)) [
  | yes small ↦ signed_encoding false v small (omega arith)
  | no large ↦
      let e : word true (long_mod - 1 - v) ≡ v = omega arith in
      rw e at (signed_encoding true (long_mod - 1 - v) (omega arith) (omega arith))
]

-- Encoding a signed 64-bit value and decoding it gives the value back, negative or not, whatever
-- follows its bytes, and the decoder stops right behind them; for both widths of the source.
pub encode_l-IsSignedEncoding :
    (v : ℕ)
    → v < long_mod
    → IsSignedEncoding v (encode_l v) decode_l × IsSignedEncoding v (encode_ll v) decode_ll
unfolding encode_l encode_ll decode_l decode_ll
encode_l-IsSignedEncoding v fits = (signed_trip v fits, signed_trip v fits)
