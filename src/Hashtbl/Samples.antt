-- ===== src/Hashtbl/Samples.antt =====
-- The key functions of c-hacks/include/c-hacks/hashtbl-funcs.h for keys that are strings, ints and
-- long longs. What is at a key's address is a parameter: a string's bytes before its NUL, and an
-- int's or a long long's pattern.
use cpp_example_code.Base.{
  ℕ, ◌*◌, ◌%◌, ◌^◌, ◌≡◌, refl, sym, ap, ◌∙◌, inl, inr, Bool, true, false, ◌&&◌, List, [], ◌∷◌,
  bit_xor, arith,
}
use cpp_example_code.Base.Tests.{◌==◌, if◌then◌else◌, Bool-cases, ==→eq, ==_refl}
use cpp_example_code.Hashtbl.State.{Ptr, null}
use cpp_example_code.Hashtbl.Read.{IsKeyed}

-- the byte at the string's pointer: the NUL where the text ends
abbrev pub first_byte : List ℕ → ℕ
first_byte [] = 0
first_byte (c ∷ text) = c

-- `while (*str++ != '\0') hash = 33 * hash ^ *str;`
unfoldable pub string_hash_loop : ℕ → List ℕ → ℕ
string_hash_loop hash [] = hash
string_hash_loop hash (c ∷ text) =
    string_hash_loop (bit_xor (33 * hash % 2 ^ 32) (first_byte text)) text

-- `strcmp(a, b) == 0`
unfoldable pub same_text : List ℕ → List ℕ → Bool
same_text [] [] = true
same_text [] (d ∷ b) = false
same_text (c ∷ a) [] = false
same_text (c ∷ a) (d ∷ b) = c == d && same_text a b

module _ (text : Ptr → List ℕ) where
  unfoldable pub string_hash : Ptr → ℕ
  string_hash k = if k == null then 5381 else string_hash_loop 5381 (text k)

  unfoldable pub string_equals : Ptr → Ptr → Bool
  string_equals a b = same_text (text a) (text b)

module _ (pattern_at : Ptr → ℕ) where
  unfoldable pub int_hash : Ptr → ℕ
  int_hash k = pattern_at k

  unfoldable pub int_equals : Ptr → Ptr → Bool
  int_equals a b = pattern_at a == pattern_at b

  -- `(unsigned int)*(long long *)k`
  unfoldable pub int64_hash : Ptr → ℕ
  int64_hash k = pattern_at k % 2 ^ 32

  unfoldable pub int64_equals : Ptr → Ptr → Bool
  int64_equals a b = pattern_at a == pattern_at b

same_text_refl : (a : List ℕ) → same_text a a ≡ true
unfolding same_text
same_text_refl [] = refl
same_text_refl (c ∷ a) = ground (arith, same_text_refl a)

same_text-eq : (a b : List ℕ) → same_text a b ≡ true → a ≡ b
unfolding same_text
same_text-eq [] [] h = refl
same_text-eq [] (d ∷ b) h = absurd (ground arith)
same_text-eq (c ∷ a) [] h = absurd (ground arith)
same_text-eq (c ∷ a) (d ∷ b) h =
    let first : c ≡ d = ground arith in
    let others : a ≡ b = same_text-eq a b (ground arith) in
    ap (λ x. x ∷ a) first ∙ ap (λ t. d ∷ t) others

same_text_symm : (a b : List ℕ) → same_text a b ≡ same_text b a
unfolding same_text
same_text_symm [] [] = refl
same_text_symm [] (d ∷ b) = refl
same_text_symm (c ∷ a) [] = refl
same_text_symm (c ∷ a) (d ∷ b) = ground (arith, same_text_symm a b)

-- The string functions meet what the table asks of its key functions, if NULL is read as the empty
-- text.
pub string_hash-IsKeyed :
    (text : Ptr → List ℕ) → text null ≡ [] → IsKeyed (string_hash text) (string_equals text)
unfolding string_hash string_equals string_hash_loop
string_hash-IsKeyed text at_null = record {
  eq_refl = λ a. same_text_refl (text a);
  eq_symm = λ a b. same_text_symm (text a) (text b);
  eq_trans = λ a b c p q. ap (λ t. same_text t (text c)) (same_text-eq (text a) (text b) p) ∙ q;
  hash-eq = λ a b h.
      hashed a ∙ ap (string_hash_loop 5381) (same_text-eq (text a) (text b) h) ∙ sym (hashed b);
}
  where
    hashed :
        (a : Ptr)
        → (if a == null then 5381 else string_hash_loop 5381 (text a))
          ≡ string_hash_loop 5381 (text a)
    hashed a = elim (Bool-cases (a == null)) [
      | inl e ↦ rw (e, ap text (==→eq a null e), at_null, string_hash_loop) refl
      | inr e ↦ rw e refl
    ]

pub int_hash-IsKeyed :
    (pattern_at : Ptr → ℕ) → IsKeyed (int_hash pattern_at) (int_equals pattern_at)
unfolding int_hash int_equals
int_hash-IsKeyed pattern_at = record {
  eq_refl = λ a. ==_refl (pattern_at a);
  eq_symm = λ a b. ground arith;
  eq_trans = λ a b c p q. ground arith;
  hash-eq = λ a b h. ==→eq (pattern_at a) (pattern_at b) h;
}

pub int64_hash-IsKeyed :
    (pattern_at : Ptr → ℕ) → IsKeyed (int64_hash pattern_at) (int64_equals pattern_at)
unfolding int64_hash int64_equals
int64_hash-IsKeyed pattern_at = record {
  eq_refl = λ a. ==_refl (pattern_at a);
  eq_symm = λ a b. ground arith;
  eq_trans = λ a b c p q. ground arith;
  hash-eq = λ a b h. ap (λ n. n % 2 ^ 32) (==→eq (pattern_at a) (pattern_at b) h);
}

-- The first character does not count.
pub string_hash_loop_first :
    (hash c d : ℕ) (text : List ℕ)
    → string_hash_loop hash (c ∷ text) ≡ string_hash_loop hash (d ∷ text)
unfolding string_hash_loop
string_hash_loop_first hash c d text = refl
