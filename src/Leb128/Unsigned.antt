-- ===== src/Leb128/Unsigned.antt =====
-- Unsigned numbers: what is encoded is decoded.
use cpp_example_code.Base.{
  ℕ, zero, suc, ◌+◌, ◌-◌, ◌*◌, ◌/◌, ◌%◌, ◌^◌, ◌≤◌, ◌<◌, ◌≡◌, refl, ap, ◌∙◌, true, false, Option,
  some, List, [], ◌∷◌, ◌++◌, bit_and, bit_or, arith,
}
use native.Mathlib.Nat.{pow-suc, div-add-mod, mul-le-mul_right}
use cpp_example_code.Base.Tests.{◌==◌}
use cpp_example_code.Base.Lists.{length, All}
use native.Mathlib.Decide.{dec_lt}
use cpp_example_code.Base.Powers.{lt_of_pow-lt}
use cpp_example_code.Base.Words.{pow-add}
use cpp_example_code.Leb128.Codec.{
  long_mod, put, encode_u_loop, encode_ul, encode_ull, decode_u_loop, decode_ul, decode_ull,
  add_group,
}
use cpp_example_code.Leb128.Bytes.{low_group, more_bit, set_more_bit, add_group_lem}

-- a last byte ends the loop
last_u :
    (g value shift : ℕ) (rest : List ℕ)
    → g < 128
    → shift < 64
    → value < 2 ^ shift
    → value + g * 2 ^ shift < long_mod
    → decode_u_loop (g ∷ rest) shift value ≡ some (value + g * 2 ^ shift, rest)
unfolding decode_u_loop
last_u g value shift rest small in_word below fits =
    let group : g % 128 ≡ g = omega arith in
    let added : add_group value g shift ≡ value + g * 2 ^ shift =
      rw group at (add_group_lem value g shift below (rw group (omega arith))) in
    ground (arith, more_bit g, added)

-- a byte with the top bit set goes on with seven more bits
inner_u :
    (g value shift : ℕ) (rest : List ℕ)
    → g < 128
    → shift < 64
    → value < 2 ^ shift
    → g * 2 ^ shift < long_mod
    → decode_u_loop ((g + 128) ∷ rest) shift value
      ≡ decode_u_loop rest (shift + 7) (value + g * 2 ^ shift)
unfolding decode_u_loop
inner_u g value shift rest small in_word below fits =
    let group : (g + 128) % 128 ≡ g = omega arith in
    let added : add_group value (g + 128) shift ≡ value + g * 2 ^ shift =
      rw group at (add_group_lem value (g + 128) shift below (rw group fits)) in
    ground (arith, more_bit (g + 128), added)

-- The lowest group of `v` and the rest, both shifted.
pub split_value : (v shift : ℕ) → v * 2 ^ shift ≡ v % 128 * 2 ^ shift + v / 128 * 2 ^ (shift + 7)
split_value v shift =
    rw (pow-add shift 7) (omega (arith, ap (λ (t : ℕ). t * 2 ^ shift) (div-add-mod v 128)))

-- More than one group leaves room for a further shift.
shift-lt : (v shift : ℕ) → 128 ≤ v → v * 2 ^ shift < long_mod → shift + 7 < 64
shift-lt v shift large fits =
    lt_of_pow-lt (shift + 7) 64
      (rw (pow-add shift 7) (omega (arith, mul-le-mul_right (2 ^ shift) large)))

-- What the encoder wrote: bytes that the decoder turns back into the value, whatever follows
-- them, and no more of them than the value needs.
pub record Encodes (v shift value : ℕ) (out : Option (List ℕ)) : Type 0 where
  pub bytes : List ℕ
  pub written : out ≡ some bytes
  pub read :
      (rest : List ℕ)
      → decode_u_loop (bytes ++ rest) shift value ≡ some (value + v * 2 ^ shift, rest)
  pub octets : All (λ b. b < 256) bytes
  pub nonempty : 0 < length bytes
  pub reaches : v < 128 ^ length bytes
  pub minimal : 1 < length bytes → 128 ^ (length bytes - 1) ≤ v

last-Encodes :
    (v shift value : ℕ)
    → v < 128
    → shift < 64
    → value < 2 ^ shift
    → value + v * 2 ^ shift < long_mod
    → Encodes v shift value (put v (some []))
last-Encodes v shift value small in_word below fits = record {
  bytes = v ∷ [];
  written = refl;
  read = λ rest. last_u v value shift rest small in_word below fits;
  octets = omega arith;
  nonempty = omega arith;
  reaches = small;
  minimal = λ h. absurd (omega arith);
}

minimal_step :
    (v n : ℕ) → 0 < n → (1 < n → 128 ^ (n - 1) ≤ v / 128) → 128 ≤ v → 128 ^ (suc n - 1) ≤ v
minimal_step v zero p h large = absurd (omega arith)
minimal_step v (suc zero) p h large = large
minimal_step v (suc (suc k)) p h large =
    let out : suc (suc (suc k)) - 1 ≡ suc (suc k) = omega arith in
    let now : suc (suc k) - 1 ≡ suc k = omega arith in
    rw out (omega (arith, pow-suc 128 (suc k), rw now at (h (omega arith))))

inner-Encodes :
    (v shift value : ℕ) (out : Option (List ℕ))
    → 128 ≤ v
    → shift < 64
    → value < 2 ^ shift
    → value + v * 2 ^ shift < long_mod
    → Encodes (v / 128) (shift + 7) (value + v % 128 * 2 ^ shift) out
    → Encodes v shift value (put (v % 128 + 128) out)
inner-Encodes v shift value out large in_word below fits next =
    let split = split_value v shift in
    let n = length next.bytes in
    rw next.written (record {
      bytes = (v % 128 + 128) ∷ next.bytes;
      written = refl;
      read = λ rest.
          inner_u (v % 128) value shift (next.bytes ++ rest) (omega arith) in_word below
            (omega (arith, split))
          ∙ next.read rest
          ∙ ap (λ t. some (t, rest)) (omega (arith, split));
      octets = (omega arith, next.octets);
      nonempty = omega arith;
      reaches = omega (arith, next.reaches, pow-suc 128 n);
      minimal = λ h. minimal_step v n next.nonempty next.minimal large;
    })

encode_u_loop_last : (fuel v : ℕ) → v < 128 → encode_u_loop (suc fuel) v ≡ put v (some [])
unfolding encode_u_loop
encode_u_loop_last fuel v small =
    let byte : bit_and v 0x7f ≡ v = omega (arith, low_group v) in
    let done : (v / 128 == 0) ≡ true = ground arith in rw (done, byte) refl

encode_u_loop_inner :
    (fuel v : ℕ)
    → 128 ≤ v
    → encode_u_loop (suc fuel) v ≡ put (v % 128 + 128) (encode_u_loop fuel (v / 128))
unfolding encode_u_loop
encode_u_loop_inner fuel v large =
    let byte : bit_or (bit_and v 0x7f) 0x80 ≡ v % 128 + 128 =
      rw (low_group v) (set_more_bit (v % 128) (omega arith)) in
    let more : (v / 128 == 0) ≡ false = ground arith in rw (more, byte) refl

pub group-lt :
    (value g shift : ℕ) → value < 2 ^ shift → g < 128 → value + g * 2 ^ shift < 2 ^ (shift + 7)
group-lt value g shift below small =
    let group : suc g ≤ 128 = small in
    rw (pow-add shift 7) (omega (arith, mul-le-mul_right (2 ^ shift) group))

encode_u_loop-Encodes :
    (fuel v shift value : ℕ)
    → v < 128 ^ suc fuel
    → shift < 64
    → value < 2 ^ shift
    → value + v * 2 ^ shift < long_mod
    → Encodes v shift value (encode_u_loop (suc fuel) v)
encode_u_loop-Encodes zero v shift value enough in_word below fits =
    rw (encode_u_loop_last 0 v enough) (last-Encodes v shift value enough in_word below fits)
encode_u_loop-Encodes (suc fuel) v shift value enough in_word below fits = elim (dec_lt v 128) [
  | yes small ↦
      rw (encode_u_loop_last (suc fuel) v small)
        (last-Encodes v shift value small in_word below fits)
  | no many ↦
      let large : 128 ≤ v = omega arith in
      rw (encode_u_loop_inner (suc fuel) v large) (
        inner-Encodes v shift value _ large in_word below fits (
          encode_u_loop-Encodes fuel (v / 128) (shift + 7) (value + v % 128 * 2 ^ shift)
            (omega (arith, pow-suc 128 (suc fuel))) (shift-lt v shift large (omega arith))
            (group-lt value (v % 128) shift below (omega arith))
            (omega (arith, split_value v shift))))
]

-- What `leb128_encode_ul` and `leb128_decode_ul` promise for a 64-bit value: the encoder returns
-- bytes, the least number of groups of seven bits that hold the value, and the decoder reads the
-- value back from them, whatever follows, and stops right behind them.
pub record IsEncoding (v : ℕ) (out : Option (List ℕ)) (decode : List ℕ → Option (ℕ × List ℕ))
    : Type 0 where
  pub bytes : List ℕ
  pub written : out ≡ some bytes
  pub read : (rest : List ℕ) → decode (bytes ++ rest) ≡ some (v, rest)
  pub octets : All (λ b. b < 256) bytes
  pub nonempty : 0 < length bytes
  pub reaches : v < 128 ^ length bytes
  pub minimal : 1 < length bytes → 128 ^ (length bytes - 1) ≤ v

-- Encoding an unsigned 64-bit value and decoding it gives the value back, for both widths of the
-- source, and the encoding is the shortest that can hold it.
pub encode_ul-IsEncoding :
    (v : ℕ)
    → v < long_mod
    → IsEncoding v (encode_ul v) decode_ul × IsEncoding v (encode_ull v) decode_ull
unfolding encode_ul encode_ull decode_ul decode_ull
encode_ul-IsEncoding v fits =
    let e = encode_u_loop-Encodes 9 v 0 0 (omega arith) (omega arith) (omega arith) (omega arith) in
    let read : (rest : List ℕ) → decode_u_loop (e.bytes ++ rest) 0 0 ≡ some (v, rest) =
      λ rest. e.read rest ∙ ap (λ t. some (t, rest)) (omega arith) in
    (
      record {
        bytes = e.bytes;
        written = e.written;
        read = read;
        octets = e.octets;
        nonempty = e.nonempty;
        reaches = e.reaches;
        minimal = e.minimal;
      },
      record {
        bytes = e.bytes;
        written = e.written;
        read = read;
        octets = e.octets;
        nonempty = e.nonempty;
        reaches = e.reaches;
        minimal = e.minimal;
      },
    )
