-- ===== src/Leb128/Values.antt =====
-- What the unsigned decoders of leb128.c read from any buffer that they accept, whoever wrote it.
use cpp_example_code.Base.{
  ℕ, ◌+◌, ◌-◌, ◌*◌, ◌/◌, ◌%◌, ◌^◌, ◌≤◌, ◌<◌, ◌≡◌, refl, sym, ap, ◌∙◌, inl, inr, true, false, Option,
  none, some, List, [], ◌∷◌, ◌++◌, bit_and, arith,
}
use cpp_example_code.Base.Tests.{leb, ◌==◌, Bool-cases}
use cpp_example_code.Base.Lists.{length}
use cpp_example_code.Leb128.Codec.{long_mod, add_group, decode_u_loop, decode_ul, decode_ull}
use cpp_example_code.Leb128.Groups.{groups, add_group_wraps, add_group_fits, groups_more}
use cpp_example_code.Leb128.Reads.{same_reading, unread}

u_last :
    (byte : ℕ) (p : List ℕ) (shift value : ℕ)
    → leb 64 shift ≡ false
    → (bit_and byte 0x80 == 0) ≡ true
    → decode_u_loop (byte ∷ p) shift value ≡ some (add_group value byte shift, p)
unfolding decode_u_loop
u_last byte p shift value near last = rw (near, last) refl

u_more :
    (byte : ℕ) (p : List ℕ) (shift value : ℕ)
    → leb 64 shift ≡ false
    → (bit_and byte 0x80 == 0) ≡ false
    → decode_u_loop (byte ∷ p) shift value
      ≡ decode_u_loop p (shift + 7) (add_group value byte shift)
unfolding decode_u_loop
u_more byte p shift value near more = rw (near, more) refl

u_far :
    (byte : ℕ) (p : List ℕ) (shift value : ℕ)
    → leb 64 shift ≡ true
    → decode_u_loop (byte ∷ p) shift value ≡ none
unfolding decode_u_loop
u_far byte p shift value far = rw far refl

u_empty : (shift value : ℕ) → decode_u_loop [] shift value ≡ none
unfolding decode_u_loop
u_empty shift value = refl

-- The bytes of one number: all but the last have the top bit.
pub data IsNumber : List ℕ → Type 0 where
  last_byte : (b : ℕ) → (bit_and b 0x80 == 0) ≡ true → IsNumber (b ∷ [])
  inner_byte :
      (b : ℕ) (bytes : List ℕ)
      → (bit_and b 0x80 == 0) ≡ false
      → IsNumber bytes
      → IsNumber (b ∷ bytes)

-- What has been read from `src`, on top of `value`: the bytes of one number at its front, which are all that the
-- decoder looked at, and the sum of their groups in a word of 64 bits.
pub record IsValue (decode : List ℕ → Option (ℕ × List ℕ)) (limit shift value : ℕ) (src : List ℕ)
    (v : ℕ) (rest : List ℕ) : Type 0 where
  pub taken : List ℕ
  pub split : src ≡ taken ++ rest
  pub number : IsNumber taken
  pub is_value : v ≡ (value + groups taken * 2 ^ shift) % long_mod
  pub alone : (more : List ℕ) → decode (taken ++ more) ≡ some (v, more)
  pub bounded : length taken ≤ limit

-- A run goes on only where C defines the next shift.
u_near :
    (p : List ℕ) (shift value v : ℕ) (rest : List ℕ)
    → decode_u_loop p shift value ≡ some (v, rest)
    → shift < 64
u_near [] shift value v rest h = absurd (unread (u_empty shift value) h)
u_near (byte ∷ p) shift value v rest h = elim (Bool-cases (leb 64 shift)) [
  | inl far ↦ absurd (unread (u_far byte p shift value far) h)
  | inr near ↦ ground arith
]

only_group :
    (value byte shift : ℕ) → value + byte % 128 * 2 ^ shift ≡ value + groups (byte ∷ []) * 2 ^ shift
only_group value byte shift = omega arith

number-length : (bytes : List ℕ) → IsNumber bytes → 0 < length bytes
number-length _ (last_byte b last) = omega arith
number-length _ (inner_byte b bytes more number) = omega arith

u_loop-IsValue :
    (src : List ℕ) (shift value v : ℕ) (rest : List ℕ)
    → value < 2 ^ shift
    → decode_u_loop src shift value ≡ some (v, rest)
    → IsValue (λ buf. decode_u_loop buf shift value) ((70 - shift) / 7) shift value src v rest
u_loop-IsValue [] shift value v rest below h = absurd (unread (u_empty shift value) h)
u_loop-IsValue (byte ∷ p) shift value v rest below h =
    let near = u_near (byte ∷ p) shift value v rest h in
    let defined : leb 64 shift ≡ false = ground arith in
    elim (Bool-cases (bit_and byte 0x80 == 0)) [
      | inl last ↦
          let e = same_reading (sym (u_last byte p shift value defined last) ∙ h) in
          record {
            taken = byte ∷ [];
            split = ap (λ t. byte ∷ t) e.1;
            number = last_byte byte last;
            is_value =
                sym e.0
                ∙ add_group_wraps value byte shift near below
                ∙ ap (λ t. t % long_mod) (only_group value byte shift);
            alone =
                λ more. u_last byte more shift value defined last ∙ ap (λ t. some (t, more)) e.0;
            bounded = omega arith;
          }
      | inr more ↦
          let next = sym (u_more byte p shift value defined more) ∙ h in
          let further = u_near p (shift + 7) (add_group value byte shift) v rest next in
          let (low, added) = add_group_fits value byte shift further below in
          let r =
            u_loop-IsValue p (shift + 7) (add_group value byte shift) v rest (rw added low) next in
          record {
            taken = byte ∷ r.taken;
            split = ap (λ t. byte ∷ t) r.split;
            number = inner_byte byte r.taken more r.number;
            is_value =
                r.is_value
                ∙ ap (λ n. (n + groups r.taken * 2 ^ (shift + 7)) % long_mod) added
                ∙ ap (λ n. n % long_mod) (groups_more value byte shift r.taken);
            alone = λ tail. u_more byte (r.taken ++ tail) shift value defined more ∙ r.alone tail;
            bounded = omega (arith, r.bounded, further);
          }
    ]

u_loop-groups :
    (taken rest : List ℕ) (shift value : ℕ)
    → IsNumber taken
    → shift + 7 * length taken ≤ 70
    → value < 2 ^ shift
    → decode_u_loop (taken ++ rest) shift value
      ≡ some ((value + groups taken * 2 ^ shift) % long_mod, rest)
u_loop-groups _ rest shift value (last_byte b last) small below =
    u_last b rest shift value (ground (arith, small)) last
    ∙ ap (λ n. some (n, rest))
        (add_group_wraps value b shift (omega arith) below
          ∙ ap (λ t. t % long_mod) (only_group value b shift))
u_loop-groups _ rest shift value (inner_byte b bytes more number) small below =
    let several = number-length bytes number in
    let (low, added) = add_group_fits value b shift (omega (arith, several)) below in
    u_more b (bytes ++ rest) shift value (ground (arith, small)) more
    ∙ u_loop-groups bytes rest (shift + 7) (add_group value b shift) number (omega arith)
        (rw added low)
    ∙ ap (λ n. some ((n + groups bytes * 2 ^ (shift + 7)) % long_mod, rest)) added
    ∙ ap (λ n. some (n % long_mod, rest)) (groups_more value b shift bytes)

-- The unsigned decoders read any number of at most ten bytes at the front of a buffer, shortest encoding or not: the
-- result is the sum of the bytes' lower seven bits, each byte's seven bits higher than the one's before, in a word
-- of 64 bits, and what follows is left.
pub decode_ul-groups :
    (taken rest : List ℕ)
    → IsNumber taken
    → length taken ≤ 10
    → (decode_ul (taken ++ rest) ≡ some (groups taken % long_mod, rest))
      × (decode_ull (taken ++ rest) ≡ some (groups taken % long_mod, rest))
unfolding decode_ul decode_ull
decode_ul-groups taken rest number few =
    let e =
      u_loop-groups taken rest 0 0 number (omega arith) (omega arith)
      ∙ ap (λ n. some (n % long_mod, rest)) (omega arith) in
    (e, e)

-- From any buffer that the unsigned decoder accepts it takes the bytes of one number at the front, which are all that
-- it looks at: those with the top bit set and one without it. The result is the sum of their lower seven bits, each
-- byte's seven bits higher than the one's before, in a word of 64 bits. There are at most ten, since C does not
-- define the shift for an eleventh.
pub decode_ul-IsValue :
    (src : List ℕ) (v : ℕ) (rest : List ℕ)
    → decode_ul src ≡ some (v, rest)
    → IsValue decode_ul 10 0 0 src v rest
unfolding decode_ul
decode_ul-IsValue src v rest h = u_loop-IsValue src 0 0 v rest (omega arith) h
