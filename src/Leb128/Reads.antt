-- ===== src/Leb128/Reads.antt =====
-- What the decoders of leb128.c take from any buffer they accept, whoever wrote it.
use cpp_example_code.Base.{
  ℕ, ◌+◌, ◌-◌, ◌*◌, ◌/◌, ◌%◌, ◌^◌, ◌≤◌, ◌<◌, ◌≡◌, ◌≢◌, refl, sym, ap, ◌∙◌, inl, inr, true, false,
  not, ◌&&◌, Option, none, some, List, [], ◌∷◌, ◌++◌, bit_and, arith,
}
use mathlib.Core.Option.{some-injective, none-ne-some}
use cpp_example_code.Base.Tests.{ltb, leb, ◌==◌, Bool-cases}
use cpp_example_code.Base.Lists.{length}
use cpp_example_code.Base.Powers.{pow-pos}
use cpp_example_code.Base.Words.{bit_or-lt}
use cpp_example_code.Leb128.Codec.{long_mod, add_group, sign_extend, decode_s_loop, decode_l}

-- A number read from `src`: it fits the word, its bytes are at the front of `src`, they are
-- all the decoder looked at, and there are between one and ten of them.
pub record IsReading (decode : List ℕ → Option (ℕ × List ℕ)) (limit : ℕ) (src : List ℕ) (v : ℕ)
    (rest : List ℕ) : Type 0 where
  pub taken : List ℕ
  pub split : src ≡ taken ++ rest
  pub alone : (more : List ℕ) → decode (taken ++ more) ≡ some (v, more)
  pub nonempty : 0 < length taken
  pub bounded : length taken ≤ limit
  pub in_word : v < long_mod

add_group-lt : (value byte shift : ℕ) → value < long_mod → add_group value byte shift < long_mod
unfolding add_group
add_group-lt value byte shift below =
    bit_or-lt 64 value (bit_and byte 0x7f * 2 ^ shift % long_mod) below (omega arith)

sign_extend-lt : (value byte shift : ℕ) → value < long_mod → sign_extend value byte shift < long_mod
unfolding sign_extend
sign_extend-lt value byte shift below =
    elim (Bool-cases (ltb shift 64 && not (bit_and byte 0x40 == 0))) [
      | inl e ↦
          rw e (bit_or-lt 64 value (long_mod - 2 ^ shift) below (omega (arith, pow-pos shift)))
      | inr e ↦ rw e below
    ]

pub same_reading :
    {v v' : ℕ} {rest rest' : List ℕ}
    → ◌≡◌ {A = Option (ℕ × List ℕ)} (some (v, rest)) (some (v', rest'))
    → (v ≡ v') × (rest ≡ rest')
same_reading {v} {v'} {rest} {rest'} h =
    let e = some-injective (v, rest) (v', rest') h in (ap (λ t. t.0) e, ap (λ t. t.1) e)

pub unread : {o : Option (ℕ × List ℕ)} {t : ℕ × List ℕ} → o ≡ none → o ≢ some t
unread {o} {t} e h = none-ne-some t (sym e ∙ h)

s_last :
    (byte : ℕ) (p : List ℕ) (shift value : ℕ)
    → leb 64 shift ≡ false
    → (bit_and byte 0x80 == 0) ≡ true
    → decode_s_loop (byte ∷ p) shift value
      ≡ some (sign_extend (add_group value byte shift) byte (shift + 7), p)
unfolding decode_s_loop
s_last byte p shift value near last = rw (near, last) refl

s_more :
    (byte : ℕ) (p : List ℕ) (shift value : ℕ)
    → leb 64 shift ≡ false
    → (bit_and byte 0x80 == 0) ≡ false
    → decode_s_loop (byte ∷ p) shift value
      ≡ decode_s_loop p (shift + 7) (add_group value byte shift)
unfolding decode_s_loop
s_more byte p shift value near more = rw (near, more) refl

s_far :
    (byte : ℕ) (p : List ℕ) (shift value : ℕ)
    → leb 64 shift ≡ true
    → decode_s_loop (byte ∷ p) shift value ≡ none
unfolding decode_s_loop
s_far byte p shift value far = rw far refl

s_empty : (shift value : ℕ) → decode_s_loop [] shift value ≡ none
unfolding decode_s_loop
s_empty shift value = refl

s_loop-IsReading :
    (src : List ℕ) (shift value v : ℕ) (rest : List ℕ)
    → value < long_mod
    → decode_s_loop src shift value ≡ some (v, rest)
    → IsReading (λ buf. decode_s_loop buf shift value) ((70 - shift) / 7) src v rest
s_loop-IsReading [] shift value v rest below h = absurd (unread (s_empty shift value) h)
s_loop-IsReading (byte ∷ p) shift value v rest below h = elim (Bool-cases (leb 64 shift)) [
  | inl far ↦ absurd (unread (s_far byte p shift value far) h)
  | inr near ↦ elim (Bool-cases (bit_and byte 0x80 == 0)) [
    | inl last ↦
        let e = same_reading (sym (s_last byte p shift value near last) ∙ h) in
        record {
          taken = byte ∷ [];
          split = ap (λ t. byte ∷ t) e.1;
          alone = λ more. s_last byte more shift value near last ∙ ap (λ t. some (t, more)) e.0;
          nonempty = omega arith;
          bounded = ground arith;
          in_word = rw (← e.0) (
              sign_extend-lt (add_group value byte shift) byte (shift + 7)
                (add_group-lt value byte shift below));
        }
    | inr more ↦
        let r =
          s_loop-IsReading p (shift + 7) (add_group value byte shift) v rest
            (add_group-lt value byte shift below) (sym (s_more byte p shift value near more) ∙ h) in
        record {
          taken = byte ∷ r.taken;
          split = ap (λ t. byte ∷ t) r.split;
          alone = λ tail. s_more byte (r.taken ++ tail) shift value near more ∙ r.alone tail;
          nonempty = omega arith;
          bounded = (let b = r.bounded in ground arith);
          in_word = r.in_word;
        }
  ]
]

-- Any buffer that the signed decoder accepts starts with one to ten bytes, the only ones it
-- looks at, and the pattern it reports fits in 64 bits.
pub decode_l-IsReading :
    (src : List ℕ) (v : ℕ) (rest : List ℕ)
    → decode_l src ≡ some (v, rest)
    → IsReading decode_l 10 src v rest
unfolding decode_l
decode_l-IsReading src v rest h = s_loop-IsReading src 0 0 v rest (omega arith) h
