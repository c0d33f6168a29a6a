-- ===== src/Leb128/Codec.antt =====
-- The functions of c-hacks/src/leb128.c, for a `long` of 64 bits. A buffer is the list of its
-- bytes, and a signed value is its bit pattern, a number below 2 ^ 64.
-- `none` is a run that C does not define: out of fuel, a read past the buffer, or a shift by 64 or more. Only in the
-- shifts and the negation of a signed long, which wrap with the compilers in use, the model goes beyond C's rules.
use cpp_example_code.Base.{
  ℕ, zero, suc, ◌+◌, ◌-◌, ◌*◌, ◌/◌, ◌%◌, ◌^◌, Bool, ◌&&◌, ◌||◌, not, Option, none, some, List, [],
  ◌∷◌, bit_and, bit_or,
}
use cpp_example_code.Base.Tests.{ltb, leb, ◌==◌, if◌then◌else◌}

abbrev pub long_mod : ℕ
long_mod = 2 ^ 64

-- a byte in front of the bytes that the other rounds write
abbrev pub put : ℕ → Option (List ℕ) → Option (List ℕ)
put byte none = none
put byte (some bytes) = some (byte ∷ bytes)

-- the `do … while (value)` loop
unfoldable pub encode_u_loop : ℕ → ℕ → Option (List ℕ)
encode_u_loop zero value = none
encode_u_loop (suc fuel) value =
    let byte = bit_and value 0x7f in
    let value' = value / 2 ^ 7 in
    let rest = encode_u_loop fuel value' in
    if value' == 0 then put byte (some []) else put (bit_or byte 0x80) rest

-- `leb128_encode_ul` and `leb128_encode_ull`: ten rounds are enough for 64 bits.
unfoldable pub encode_ul : ℕ → Option (List ℕ)
encode_ul value = encode_u_loop 10 value

unfoldable pub encode_ull : ℕ → Option (List ℕ)
encode_ull value = encode_u_loop 10 value

-- `value >>= 7` on a signed value: the sign bit is shifted in.
unfoldable pub shift_right_7 : ℕ → ℕ
shift_right_7 value = value / 2 ^ 7 + (if ltb value (2 ^ 63) then 0 else 127 * 2 ^ 57)

-- the condition that ends the `while (more)` loop; `long_mod - 1` is the pattern of -1
unfoldable pub is_last : ℕ → ℕ → Bool
is_last value byte =
    (value == 0 && not (bit_and byte 0x40 == 0x40))
    || (value == long_mod - 1 && bit_and byte 0x40 == 0x40)

unfoldable pub encode_s_loop : ℕ → ℕ → Option (List ℕ)
encode_s_loop zero value = none
encode_s_loop (suc fuel) value =
    let byte = bit_and value 0x7f in
    let value' = shift_right_7 value in
    let rest = encode_s_loop fuel value' in
    if is_last value' byte then put byte (some []) else put (bit_or byte 0x80) rest

-- `leb128_encode_l` and `leb128_encode_ll`
unfoldable pub encode_l : ℕ → Option (List ℕ)
encode_l value = encode_s_loop 10 value

unfoldable pub encode_ll : ℕ → Option (List ℕ)
encode_ll value = encode_s_loop 10 value

-- `value |= (byte & 0x7f) << shift`
unfoldable pub add_group : ℕ → ℕ → ℕ → ℕ
add_group value byte shift = bit_or value (bit_and byte 0x7f * 2 ^ shift % long_mod)

-- the `while (1)` loop, with the value and the bytes behind it; C does not define a shift by 64 or more, so that such a
-- run has no result
unfoldable pub decode_u_loop : List ℕ → ℕ → ℕ → Option (ℕ × List ℕ)
decode_u_loop [] shift value = none
decode_u_loop (byte ∷ p) shift value =
    let value' = add_group value byte shift in
    let rest = decode_u_loop p (shift + 7) value' in
    if leb 64 shift then none else if bit_and byte 0x80 == 0 then some (value', p) else rest

-- `leb128_decode_ul` and `leb128_decode_ull`
unfoldable pub decode_ul : List ℕ → Option (ℕ × List ℕ)
decode_ul buf = decode_u_loop buf 0 0

unfoldable pub decode_ull : List ℕ → Option (ℕ × List ℕ)
decode_ull buf = decode_u_loop buf 0 0

-- `value |= -(1L << shift)` behind the loop, if the last group's sign bit is set, on two's complement
-- with wrap-around
unfoldable pub sign_extend : ℕ → ℕ → ℕ → ℕ
sign_extend value byte shift =
    if ltb shift 64 && not (bit_and byte 0x40 == 0)
    then bit_or value (long_mod - 2 ^ shift)
    else value

-- the `do … while ((byte & 0x80) != 0)` loop and the sign extension; a shift by 64 or more has no result
unfoldable pub decode_s_loop : List ℕ → ℕ → ℕ → Option (ℕ × List ℕ)
decode_s_loop [] shift value = none
decode_s_loop (byte ∷ p) shift value =
    let value' = add_group value byte shift in
    let rest = decode_s_loop p (shift + 7) value' in
    if leb 64 shift
    then none
    else if bit_and byte 0x80 == 0
    then some (sign_extend value' byte (shift + 7), p)
    else rest

-- `leb128_decode_l` and `leb128_decode_ll`
unfoldable pub decode_l : List ℕ → Option (ℕ × List ℕ)
decode_l buf = decode_s_loop buf 0 0

unfoldable pub decode_ll : List ℕ → Option (ℕ × List ℕ)
decode_ll buf = decode_s_loop buf 0 0
