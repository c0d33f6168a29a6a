-- ===== src/Leb128/Tests.antt =====
-- The encodings that leb128.c's comments name, and the theorems at concrete numbers.
use cpp_example_code.Base.{◌-◌, ◌≡◌, refl, some, [], ◌∷◌, arith}
use cpp_example_code.Leb128.Codec.{
  long_mod, encode_u_loop, encode_ul, encode_ull, shift_right_7, is_last, encode_s_loop, encode_l,
  encode_ll, add_group, sign_extend, decode_u_loop, decode_ul, decode_ull, decode_s_loop, decode_l,
  decode_ll,
}
use cpp_example_code.Leb128.Unsigned.{IsEncoding, encode_ul-IsEncoding}
use cpp_example_code.Leb128.SignedTrip.{IsSignedEncoding, encode_l-IsSignedEncoding}
use cpp_example_code.Leb128.Reads.{IsReading, decode_l-IsReading}
use cpp_example_code.Leb128.Values.{
  IsValue, last_byte, inner_byte, decode_ul-groups, decode_ul-IsValue,
}

-- the comment's unsigned example
encode_624485 : encode_ul 624485 ≡ some (0xe5 ∷ 0x8e ∷ 0x26 ∷ [])
unfolding encode_ul encode_u_loop
encode_624485 = refl

-- the comment's signed example
encode_negative : encode_l (long_mod - 624485) ≡ some (0x9b ∷ 0xf1 ∷ 0x59 ∷ [])
unfolding encode_l encode_s_loop shift_right_7 is_last
encode_negative = refl

-- the comment's table: 7f is -1 or 127, 80 7f is -128 or 16256
decode_table_ul : decode_ul (0x80 ∷ 0x7f ∷ []) ≡ some (16256, [])
unfolding decode_ul decode_u_loop add_group
decode_table_ul = refl

decode_table_l : decode_l (0x80 ∷ 0x7f ∷ []) ≡ some (long_mod - 128, [])
unfolding decode_l decode_s_loop add_group sign_extend
decode_table_l = refl

encode_ul-IsEncoding_example :
    IsEncoding 624485 (encode_ul 624485) decode_ul
    × IsEncoding 624485 (encode_ull 624485) decode_ull
encode_ul-IsEncoding_example = encode_ul-IsEncoding 624485 (omega arith)

encode_l-IsSignedEncoding_example :
    IsSignedEncoding (long_mod - 624485) (encode_l (long_mod - 624485)) decode_l
    × IsSignedEncoding (long_mod - 624485) (encode_ll (long_mod - 624485)) decode_ll
encode_l-IsSignedEncoding_example = encode_l-IsSignedEncoding (long_mod - 624485) (omega arith)

decode_ul-IsValue_example : IsValue decode_ul 10 0 0 (0x80 ∷ 0x7f ∷ []) 16256 []
decode_ul-IsValue_example = decode_ul-IsValue (0x80 ∷ 0x7f ∷ []) 16256 [] decode_table_ul

decode_l-IsReading_test : IsReading decode_l 10 (0x80 ∷ 0x7f ∷ []) (long_mod - 128) []
decode_l-IsReading_test = decode_l-IsReading (0x80 ∷ 0x7f ∷ []) (long_mod - 128) [] decode_table_l

-- not the shortest encoding
decode_ul-groups_example :
    (decode_ul (0xff ∷ 0x00 ∷ 9 ∷ []) ≡ some (127, 9 ∷ []))
    × (decode_ull (0xff ∷ 0x00 ∷ 9 ∷ []) ≡ some (127, 9 ∷ []))
decode_ul-groups_example =
    decode_ul-groups (0xff ∷ 0x00 ∷ []) (9 ∷ [])
      (inner_byte 0xff (0x00 ∷ []) refl (last_byte 0x00 refl)) (omega arith)
