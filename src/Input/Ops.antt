-- ===== src/Input/Ops.antt =====
-- The functions of httptest-geektime/lib/read.c, with names as there. Each gives what it returns, the bytes that it
-- has stored in the buffer, and the system afterwards. `none` is a run that does not come to its end on
-- the fuel, or that C does not define.
use cpp_example_code.Base.{
  ℕ, zero, suc, ◌+◌, ◌-◌, ◌*◌, ◌^◌, Bool, true, false, not, Option, none, some, List, [], ◌∷◌, ◌++◌,
}
use cpp_example_code.Base.Tests.{ltb, leb, ◌==◌, if◌then◌else◌}
use cpp_example_code.Base.Lists.{length}
use cpp_example_code.Base.Int.{ℤ, pos, negsuc}
use cpp_example_code.Input.Socket.{got, failed, Socket}

module _ {W : Type 0} (s : Socket W) where
  abbrev pub Outcome : Type 0
  Outcome = ℤ × List ℕ × W

  -- the loop of `readn`, with the number of bytes that are missing and those that are stored
  unfoldable pub readn_loop : ℕ → W → ℕ → List ℕ → Option Outcome
  readn_loop zero w missing stored = none
  readn_loop (suc fuel) w zero stored = some (pos (length stored), stored, w)
  readn_loop (suc fuel) w (suc n) stored =
      let (a, w') = s.read w (suc n) in
      elim a [
        | failed true ↦ readn_loop fuel w' (suc n) stored
        | failed false ↦ some (negsuc 0, stored, w')
        | got [] ↦ some (pos (length stored), stored, w')
        | got (x ∷ xs) ↦
            if leb (length xs) n
            then readn_loop fuel w' (n - length xs) (stored ++ (x ∷ xs))
            else none
      ]

  -- `readn`, for a size that is an int
  unfoldable pub readn : ℕ → W → ℕ → Option Outcome
  readn fuel w size = if leb (2 ^ 31) size then none else readn_loop fuel w size []

  -- `ntohl` of four bytes
  abbrev pub ntohl : List ℕ → Option ℕ
  ntohl (a ∷ b ∷ c ∷ d ∷ []) = some (((a * 256 + b) * 256 + c) * 256 + d)
  ntohl bytes = none

  -- `rc < 0 ? -1 : 0`
  abbrev pub short_result : ℤ → ℤ
  short_result (pos n) = pos 0
  short_result (negsuc n) = negsuc 0

  -- a number of bytes that was returned, against the one wanted
  abbrev pub is_all : ℤ → ℕ → Bool
  is_all (pos n) size = n == size
  is_all (negsuc n) size = false

  -- the end of `read_message`, where the header has been read
  unfoldable pub read_body : ℕ → W → ℕ → ℕ → Option Outcome
  read_body fuel w n size = if ltb size n then some (negsuc 0, [], w) else elim (readn fuel w n) [
    | none ↦ none
    | some (rc, body, w') ↦
        if is_all rc n then some (rc, body, w') else some (short_result rc, body, w')
  ]

  -- `read_message` into a buffer of `size` bytes; the message's type is read and not used.
  unfoldable pub read_message : ℕ → W → ℕ → Option Outcome
  read_message fuel w size = elim (readn fuel w 4) [
    | none ↦ none
    | some (rc, header, w') ↦
        if not (is_all rc 4) then some (short_result rc, [], w') else elim (readn fuel w' 4) [
          | none ↦ none
          | some (rc', type, w'') ↦
              if not (is_all rc' 4)
              then some (short_result rc', [], w'')
              else elim (ntohl header) [ none ↦ none | some n ↦ read_body fuel w'' n size ]
        ]
  ]

  -- `readline_2`, from a number of places on; the NUL behind the line is stored as well.
  unfoldable pub readline_2 : W → ℕ → List ℕ → Outcome
  readline_2 w zero stored = (negsuc 0, stored, w)
  readline_2 w (suc places) stored =
      let (a, w') = s.read w 1 in
      elim a [
        | failed e ↦ (negsuc 0, stored, w')
        | got [] ↦ (negsuc 0, stored, w')
        | got (c ∷ xs) ↦
            if c == 10
            then (pos (length stored + 1), stored ++ (10 ∷ 0 ∷ []), w')
            else readline_2 w' places (stored ++ (c ∷ []))
      ]

  -- the second half of a round of `read_line`: what a CR becomes
  unfoldable pub after_cr : W → W
  after_cr w =
      let (a, w') = s.peek w 1 in
      elim a [
        | failed e ↦ w'
        | got [] ↦ w'
        | got (c ∷ xs) ↦ if c == 10 then (let (_, w'') = s.read w' 1 in w'') else w'
      ]

  -- the loop of `read_line`, with the places that are left
  unfoldable pub read_line_from : W → ℕ → List ℕ → Outcome
  read_line_from w zero stored = (pos (length stored), stored ++ (0 ∷ []), w)
  read_line_from w (suc places) stored =
      let (a, w') = s.read w 1 in
      elim a [
        | failed e ↦ (pos (length stored), stored ++ (0 ∷ []), w')
        | got [] ↦ (pos (length stored), stored ++ (0 ∷ []), w')
        | got (c ∷ xs) ↦
            if c == 13
            then (pos (length stored + 1), stored ++ (10 ∷ 0 ∷ []), after_cr w')
            else if c == 10
            then (pos (length stored + 1), stored ++ (10 ∷ 0 ∷ []), w')
            else read_line_from w' places (stored ++ (c ∷ []))
      ]

  -- `read_line` into a buffer of `size` bytes
  unfoldable pub read_line : W → ℕ → Outcome
  read_line w size = read_line_from w (size - 1) []

  -- the loop of `readline`, on fuel, with the places that are left and the bytes of the last recv that have
  -- not been used; these are in a static buffer, but their number is not kept from call to call.
  unfoldable pub readline_from : ℕ → W → ℕ → List ℕ → List ℕ → Option Outcome
  readline_from zero w places chunk stored = none
  readline_from (suc fuel) w zero chunk stored = some (negsuc 0, stored, w)
  readline_from (suc fuel) w (suc places) [] stored =
      let (a, w') = s.read w 512 in
      elim a [
        | failed true ↦ readline_from fuel w' (suc places) [] stored
        | failed false ↦ some (negsuc 0, stored, w')
        | got [] ↦ some (pos 0, stored, w')
        | got (x ∷ xs) ↦ readline_from fuel w' (suc places) (x ∷ xs) stored
      ]
  readline_from (suc fuel) w (suc places) (c ∷ chunk) stored =
      if c == 10
      then some (pos (length stored + 1), stored ++ (10 ∷ 0 ∷ []), w)
      else readline_from fuel w places chunk (stored ++ (c ∷ []))

  -- `readline` into a buffer of `size` bytes, at least one
  unfoldable pub readline : ℕ → W → ℕ → Option Outcome
  readline fuel w size = readline_from fuel w (size - 1) [] []
