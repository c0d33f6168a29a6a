-- ===== src/Buffer/Reading.antt =====
-- `buffer_read_char` and `buffer_find_CRLF` on the readable bytes.
use cpp_example_code.Base.{
  ℕ, zero, suc, ◌+◌, ◌-◌, ◌<◌, ◌≡◌, refl, ap, inl, inr, Bool, true, false, ◌&&◌, Option, none, some,
  List, [], ◌∷◌, arith,
}
use cpp_example_code.Base.Tests.{ltb, ◌==◌, Bool-cases}
use cpp_example_code.Base.Lists.{length, get_or}
use cpp_example_code.Buffer.Ops.{
  Buffer, read_char, cells, further, find_pair, find_crlf, readable_size,
}
use cpp_example_code.Buffer.Room.{IsBuffer, content}

-- What reading a byte promises: the first of the readable ones, and the others after it.
pub record CharRead (b : Buffer) (out : Option (ℕ × Buffer)) : Type 0 where
  pub char : ℕ
  pub after : Buffer
  pub returns : out ≡ some (char, after)
  pub valid : IsBuffer after
  pub takes : content b ≡ char ∷ content after

-- Where there is something to read, `buffer_read_char` takes the first of the readable bytes.
pub read_char-CharRead :
    (b : Buffer) → IsBuffer b → b.read_index < b.write_index → CharRead b (read_char b)
unfolding read_char cells
read_char-CharRead b v some_left =
    let inside : ltb b.read_index (length b.bytes) ≡ true =
      (let sized = v.sized in let bounded = v.bounded in ground arith) in
    let count : b.write_index - b.read_index ≡ suc (b.write_index - (b.read_index + 1)) =
      omega arith in
    rw inside (record {
      char = get_or b.bytes b.read_index 0;
      after = record b { read_index = b.read_index + 1 };
      returns = refl;
      valid = record { ordered = omega arith; bounded = v.bounded; sized = v.sized };
      takes = ap (λ t. cells t b.read_index b.bytes) count;
    })

-- "\r\n" stands at place `i`.
abbrev pub pair_at : List ℕ → ℕ → Bool
pair_at src i = get_or src i 0 == 13 && get_or src (suc i) 0 == 10

-- The answer is the first place of "\r\n", or there is none.
abbrev pub IsFirst : List ℕ → Option ℕ → Type 0
IsFirst src none = (i : ℕ) → pair_at src i ≡ false
IsFirst src (some k) = (pair_at src k ≡ true) × ((i : ℕ) → i < k → pair_at src i ≡ false)

and_false : (b : Bool) → (b && false) ≡ false
and_false true = refl
and_false false = refl

further-IsFirst :
    (x y : ℕ) (src : List ℕ) (o : Option ℕ)
    → (x == 13 && y == 10) ≡ false
    → IsFirst (y ∷ src) o
    → IsFirst (x ∷ y ∷ src) (further o)
further-IsFirst x y src none other first = λ i. at i
  where
    at : (i : ℕ) → pair_at (x ∷ y ∷ src) i ≡ false
    at zero = other
    at (suc i) = first i
further-IsFirst x y src (some k) other first = (first.0, λ i h. at i h)
  where
    at : (i : ℕ) → i < suc k → pair_at (x ∷ y ∷ src) i ≡ false
    at zero h = other
    at (suc i) h = first.1 i (omega arith)

single : (x i : ℕ) → pair_at (x ∷ []) i ≡ false
single x zero = and_false (x == 13)
single x (suc i) = refl

find_pair-IsFirst : (src : List ℕ) → IsFirst src (find_pair src)
unfolding find_pair
find_pair-IsFirst [] = λ i. refl
find_pair-IsFirst (x ∷ []) = single x
find_pair-IsFirst (x ∷ y ∷ src) = elim (Bool-cases (x == 13 && y == 10)) [
  | inl here ↦ rw here (here, λ i h. absurd (omega arith))
  | inr other ↦
      rw other (further-IsFirst x y src (find_pair (y ∷ src)) other (find_pair-IsFirst (y ∷ src)))
]

-- `buffer_find_CRLF` finds the first "\r\n" of the readable bytes, counted from the first of them,
-- and nothing exactly where there is none.
pub find_crlf-IsFirst : (b : Buffer) → IsFirst (content b) (find_crlf b)
unfolding find_crlf readable_size
find_crlf-IsFirst b = find_pair-IsFirst (content b)
