-- ===== src/Input/Tests.antt =====
-- Sockets that give bytes one by one or all at once, and the theorems at them.
use cpp_example_code.Base.{
  ℕ, suc, ◌≤◌, ◌<◌, ◌≡◌, ◌≢◌, refl, ap, true, false, Option, none, some, List, [], ◌∷◌, ◌++◌, arith,
}
use cpp_example_code.Base.Lists.{length}
use cpp_example_code.Base.Int.{pos, negsuc}
use cpp_example_code.Input.Socket.{Answer, got, failed, Socket, Delivers, Peeks}
use cpp_example_code.Input.Ops.{readn, read_message, readline_2, read_line, readline}
use cpp_example_code.Input.Readn.{Filled, readn-Filled}
use cpp_example_code.Input.Messages.{Framed, read_message-Framed}
use cpp_example_code.Input.Lines.{LineRead, readline_drops}
use cpp_example_code.Input.Endings.{by_crlf, read_line-LineRead}

-- what is to come: bytes, and interrupts between them
abbrev Script : Type 0
Script = List (Option ℕ)

abbrev bytes_of : Script → List ℕ
bytes_of [] = []
bytes_of (none ∷ w) = bytes_of w
bytes_of (some x ∷ w) = x ∷ bytes_of w

abbrev interrupts_of : Script → ℕ
interrupts_of [] = 0
interrupts_of (none ∷ w) = suc (interrupts_of w)
interrupts_of (some x ∷ w) = interrupts_of w

abbrev give : Script → ℕ → Answer × Script
give [] n = (got [], [])
give (none ∷ w) n = (failed true, w)
give (some x ∷ w) n = (got (x ∷ []), w)

abbrev first_of : List ℕ → Answer
first_of [] = got []
first_of (x ∷ xs) = got (x ∷ [])

abbrev bytewise : Socket Script
bytewise = record { read = give; peek = λ w n. (first_of (bytes_of w), w) }

abbrev given : Answer → List ℕ
given (got xs) = xs
given (failed e) = []

abbrev kind : Answer → ℕ
kind (got xs) = 0
kind (failed true) = 1
kind (failed false) = 2

gives :
    (w : Script) (n x : ℕ) (xs : List ℕ)
    → (give w (suc n)).0 ≡ got (x ∷ xs)
    → (bytes_of w ≡ (x ∷ xs) ++ bytes_of (give w (suc n)).1)
      × (length xs ≤ n)
      × (interrupts_of (give w (suc n)).1 ≤ interrupts_of w)
gives [] n x xs e = let l = ap (λ a. length (given a)) e in absurd (omega arith)
gives (none ∷ w) n x xs e = let l = ap kind e in absurd (omega arith)
gives (some y ∷ w) n x xs e =
    let l = ap (λ a. length (given a)) e in
    (ap (λ a. given a ++ bytes_of w) e, omega arith, omega arith)

ends :
    (w : Script) (n : ℕ)
    → (give w (suc n)).0 ≡ got []
    → (bytes_of w ≡ [])
      × (bytes_of (give w (suc n)).1 ≡ [])
      × (interrupts_of (give w (suc n)).1 ≤ interrupts_of w)
ends [] n e = (refl, refl, omega arith)
ends (none ∷ w) n e = let l = ap kind e in absurd (omega arith)
ends (some y ∷ w) n e = let l = ap (λ a. length (given a)) e in absurd (omega arith)

breaks :
    (w : Script) (n : ℕ)
    → (give w (suc n)).0 ≡ failed true
    → (bytes_of (give w (suc n)).1 ≡ bytes_of w)
      × (interrupts_of (give w (suc n)).1 < interrupts_of w)
breaks [] n e = let l = ap kind e in absurd (omega arith)
breaks (none ∷ w) n e = (refl, omega arith)
breaks (some y ∷ w) n e = let l = ap kind e in absurd (omega arith)

holds : (w : Script) (n : ℕ) → (give w (suc n)).0 ≢ failed false
holds [] n e = let l = ap kind e in absurd (omega arith)
holds (none ∷ w) n e = let l = ap kind e in absurd (omega arith)
holds (some y ∷ w) n e = let l = ap kind e in absurd (omega arith)

abbrev bytewise-Delivers : Delivers bytewise
bytewise-Delivers = record {
  pending = bytes_of;
  interrupts = interrupts_of;
  gives = λ w n x xs e. gives w n x xs e;
  ends = λ w n e. ends w n e;
  breaks = λ w n e. breaks w n e;
  holds = λ w n e. holds w n e;
}

bytewise-Peeks : Peeks bytewise bytewise-Delivers
bytewise-Peeks = record { shows = λ w x xs at. ap first_of at; keeps = λ w. (refl, refl) }

-- three bytes and an interrupt, and one byte more
abbrev script : Script
script = some 7 ∷ none ∷ some 8 ∷ some 9 ∷ some 1 ∷ []

readn-Filled_example : Filled bytewise bytewise-Delivers script 3 [] (readn bytewise 9 script 3)
readn-Filled_example =
    readn-Filled bytewise bytewise-Delivers 9 script 3 (omega arith) (omega arith)

abbrev zeros : Script → Script
zeros w = some 0 ∷ some 0 ∷ some 0 ∷ some 2 ∷ some 0 ∷ some 0 ∷ some 0 ∷ some 1 ∷ w

abbrev framed : Script
framed = zeros script

read_message-Framed_example :
    Framed bytewise bytewise-Delivers framed
      (pos 2)
      (7 ∷ 8 ∷ [])
      (9 ∷ 1 ∷ [])
      (read_message bytewise 20 framed 2)
read_message-Framed_example =
    read_message-Framed bytewise bytewise-Delivers 20 framed (0 ∷ 0 ∷ 0 ∷ 1 ∷ []) (7 ∷ 8 ∷ [])
      (9 ∷ 1 ∷ []) 2 refl (omega arith) (omega arith) refl

-- "ab\r\nc"
abbrev lines : Script
lines = some 97 ∷ some 98 ∷ some 13 ∷ some 10 ∷ some 99 ∷ []

read_line-LineRead_example :
    LineRead bytewise bytewise-Delivers lines (97 ∷ 98 ∷ []) (99 ∷ []) (read_line bytewise lines 4)
read_line-LineRead_example =
    read_line-LineRead bytewise bytewise-Delivers bytewise-Peeks lines 4 (97 ∷ 98 ∷ []) (99 ∷ [])
      (13 ∷ 10 ∷ 99 ∷ []) refl refl (by_crlf (99 ∷ [])) (omega arith) refl refl

-- A socket that gives all it has.
abbrev whole : Socket (List ℕ)
whole = record { read = λ w n. (got w, []); peek = λ w n. (got w, w) }

readline_drops_example :
    readline whole 9 (97 ∷ 10 ∷ 98 ∷ 10 ∷ []) 4 ≡ some (pos 2, 97 ∷ 10 ∷ 0 ∷ [], [])
readline_drops_example =
    readline_drops whole 9 (97 ∷ 10 ∷ 98 ∷ 10 ∷ []) 4 (97 ∷ []) (98 ∷ 10 ∷ []) refl (omega arith)
      (omega arith) refl

-- A line that fills the buffer of three bytes is stored with a NUL behind the buffer.
readline_2_test :
    readline_2 bytewise (some 97 ∷ some 98 ∷ some 10 ∷ []) 3 [] ≡ (pos 3, 97 ∷ 98 ∷ 10 ∷ 0 ∷ [], [])
unfolding readline_2
readline_2_test = refl

-- An interrupt ends `readline_2`, with the bytes before it lost.
interrupted_test :
    readline_2 bytewise script 9 [] ≡ (negsuc 0, 7 ∷ [], some 8 ∷ some 9 ∷ some 1 ∷ [])
unfolding readline_2
interrupted_test = refl
