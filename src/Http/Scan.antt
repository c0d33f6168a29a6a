-- ===== src/Http/Scan.antt =====
-- Where the searches of the parser stop on text that has been put together from its parts.
use cpp_example_code.Base.{
  ℕ, suc, ◌+◌, ◌≡◌, refl, ap, ◌∙◌, true, false, ◌&&◌, some, List, [], ◌∷◌, ◌++◌, arith,
}
use cpp_example_code.Base.Tests.{◌==◌}
use cpp_example_code.Base.Lists.{length, drop}
use cpp_example_code.Base.Occurs.{occurs}
use cpp_example_code.Buffer.Ops.{find_pair}
use cpp_example_code.Http.Request.{find_byte, find_two, copied}

-- The text behind `n` more characters.
pub drop-past : (xs : List ℕ) (n : ℕ) (ys : List ℕ) → drop (length xs + n) (xs ++ ys) ≡ drop n ys
drop-past [] n ys = ap (λ t. drop t ys) (omega arith)
drop-past (x ∷ xs) n ys =
    let e : suc (length xs) + n ≡ suc (length xs + n) = omega arith in
    ap (λ t. drop t (x ∷ (xs ++ ys))) e ∙ drop-past xs n ys

pub find_byte-append :
    (c : ℕ) (xs ys : List ℕ) → occurs c xs ≡ 0 → find_byte c (xs ++ (c ∷ ys)) ≡ some (length xs)
unfolding find_byte
find_byte-append c [] ys clean = let here : (c == c) ≡ true = ground arith in rw here refl
find_byte-append c (x ∷ xs) ys clean =
    let other : (x == c) ≡ false = ground arith in
    rw (other, find_byte-append c xs ys (omega arith)) refl

pub find_two-append :
    (c d : ℕ) (xs ys : List ℕ)
    → occurs c xs ≡ 0
    → find_two c d (xs ++ (c ∷ d ∷ ys)) ≡ some (length xs)
unfolding find_two
find_two-append c d [] ys clean =
    let here : (c == c && d == d) ≡ true = ground arith in rw here refl
find_two-append c d (x ∷ []) ys clean =
    let other : (x == c && c == d) ≡ false = ground arith in
    rw (other, find_two-append c d [] ys refl) refl
find_two-append c d (x ∷ y ∷ xs) ys clean =
    let other : (x == c && y == d) ≡ false = ground arith in
    rw (other, find_two-append c d (y ∷ xs) ys (omega arith)) refl

-- The first line end stands behind a line that has no CR.
pub find_pair-append :
    (line rest : List ℕ)
    → occurs 13 line ≡ 0
    → find_pair (line ++ (13 ∷ 10 ∷ rest)) ≡ some (length line)
unfolding find_pair
find_pair-append [] rest clean = refl
find_pair-append (x ∷ []) rest clean =
    let other : (x == 13 && 13 == 10) ≡ false = ground arith in rw other refl
find_pair-append (x ∷ y ∷ line) rest clean =
    let other : (x == 13 && y == 10) ≡ false = ground arith in
    rw (other, find_pair-append (y ∷ line) rest (omega arith)) refl

-- A text without NUL is copied as it is.
pub copied_text : (xs : List ℕ) → occurs 0 xs ≡ 0 → copied xs ≡ xs
unfolding copied
copied_text [] clean = refl
copied_text (x ∷ xs) clean =
    let other : (x == 0) ≡ false = ground arith in
    rw other (ap (λ t. x ∷ t) (copied_text xs (omega arith)))

pub drop-behind : (xs : List ℕ) (c : ℕ) (ys : List ℕ) → drop (suc (length xs)) (xs ++ (c ∷ ys)) ≡ ys
drop-behind [] c ys = refl
drop-behind (x ∷ xs) c ys = drop-behind xs c ys
