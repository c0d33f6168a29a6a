-- ===== src/Input/Lines.antt =====
-- Lines: what `readline` and `readline_2` store, and what they leave.
use cpp_example_code.Base.{
  ℕ, zero, suc, ◌+◌, ◌-◌, ◌<◌, ◌≡◌, refl, sym, ap, ◌∙◌, true, false, some, List, [], ◌∷◌, ◌++◌,
  arith,
}
use mathlib.Core.List.{append_assoc, append-nil}
use cpp_example_code.Base.Tests.{◌==◌}
use cpp_example_code.Base.Lists.{length, get_or, drop}
use cpp_example_code.Base.Occurs.{occurs}
use cpp_example_code.Base.Int.{pos}
use cpp_example_code.Input.Socket.{Answer, got, failed, Socket, Delivers}
use cpp_example_code.Input.Ops.{Outcome, readline_2, readline_from, readline}

module _ {W : Type 0} (s : Socket W) where
  -- the bytes of a recv up to the end of the line
  chunk-line :
      (fuel : ℕ) (w : W) (places : ℕ) (line more stored : List ℕ)
      → occurs 10 line ≡ 0
      → length line < places
      → length line < fuel
      → readline_from s fuel w places (line ++ (10 ∷ more)) stored
        ≡ some (pos (length (stored ++ line) + 1), (stored ++ line) ++ (10 ∷ 0 ∷ []), w)
  unfolding readline_from
  chunk-line zero w places line more stored clean room enough = absurd (omega arith)
  chunk-line (suc fuel) w zero line more stored clean room enough = absurd (omega arith)
  chunk-line (suc fuel) w (suc places) [] more stored clean room enough =
      ap (λ t. some (pos (length t + 1), t ++ (10 ∷ 0 ∷ []), w)) (sym (append-nil stored))
  chunk-line (suc fuel) w (suc places) (c ∷ line) more stored clean room enough =
      let other : (c == 10) ≡ false = ground arith in
      rw (other, readline_from)
        (chunk-line fuel w places line more (stored ++ (c ∷ [])) (omega arith) (omega arith)
            (omega arith)
          ∙ ap (λ t. some (pos (length t + 1), t ++ (10 ∷ 0 ∷ []), w))
              (append_assoc stored (c ∷ []) line))

  -- the recv that brings the line
  fill-line :
      (fuel : ℕ) (w : W) (places : ℕ) (line more : List ℕ)
      → occurs 10 line ≡ 0
      → length line < suc places
      → length line < fuel
      → (s.read w 512).0 ≡ got (line ++ (10 ∷ more))
      → readline_from s (suc fuel) w (suc places) [] []
        ≡ some (pos (length line + 1), line ++ (10 ∷ 0 ∷ []), (s.read w 512).1)
  unfolding readline_from
  fill-line fuel w places [] more clean room enough e =
      rw (e, readline_from)
        (chunk-line fuel (s.read w 512).1 (suc places) [] more [] clean room enough)
  fill-line fuel w places (c ∷ line) more clean room enough e =
      rw (e, readline_from)
        (chunk-line fuel (s.read w 512).1 (suc places) (c ∷ line) more [] clean room enough)

  -- `readline` keeps the number of bytes that are left from a recv in a variable of its own, so that what the recv gave
  -- behind the line is lost: the line is returned, and the socket is past all of it.
  pub readline_drops :
      (fuel : ℕ) (w : W) (size : ℕ) (line more : List ℕ)
      → occurs 10 line ≡ 0
      → length line + 1 < size
      → length line + 1 < fuel
      → (s.read w 512).0 ≡ got (line ++ (10 ∷ more))
      → readline s fuel w size
        ≡ some (pos (length line + 1), line ++ (10 ∷ 0 ∷ []), (s.read w 512).1)
  unfolding readline
  readline_drops zero w size line more clean room enough e = absurd (omega arith)
  readline_drops (suc fuel) w zero line more clean room enough e = absurd (omega arith)
  readline_drops (suc fuel) w (suc zero) line more clean room enough e = absurd (omega arith)
  readline_drops (suc fuel) w (suc (suc places)) line more clean room enough e =
      let e' : suc (suc places) - 1 ≡ suc places = omega arith in
      ap (λ n. readline_from s (suc fuel) w n [] []) e'
      ∙ fill-line fuel w places line more clean (omega arith) (omega arith) e

module _ {W : Type 0} (s : Socket W) (d : Delivers s) where
  -- What a line that was read promises: its bytes with a newline and a NUL behind, their number less the NUL, and
  -- what follows is still to be read.
  pub record LineRead (w : W) (line rest : List ℕ) (out : Outcome s) : Type 0 where
    pub after : W
    pub returns : out ≡ (pos (length line + 1), line ++ (10 ∷ 0 ∷ []), after)
    pub left : d.pending after ≡ rest

  -- a call of recv for one byte, with no interrupt to come
  pub record OneRead (w : W) (x : ℕ) (rest : List ℕ) : Type 0 where
    pub given : (s.read w 1).0 ≡ got (x ∷ [])
    pub left : d.pending (s.read w 1).1 ≡ rest
    pub calm : d.interrupts (s.read w 1).1 ≡ 0

  pub one-step :
      (w : W) (x : ℕ) (rest : List ℕ) (a : Answer)
      → d.pending w ≡ x ∷ rest
      → d.interrupts w ≡ 0
      → (s.read w 1).0 ≡ a
      → OneRead w x rest
  one-step w x rest (got []) at calm e =
      let empty : 0 ≡ suc (length rest) = ap length (sym (d.ends w 0 e).0 ∙ at) in
      absurd (omega arith)
  one-step w x rest (got (y ∷ [])) at calm e =
      let (front, le, fewer) = d.gives w 0 y [] e in
      let both = sym at ∙ front in
      record {
        given = e ∙ ap (λ z. got (z ∷ [])) (sym (ap (λ t. get_or t 0 0) both));
        left = sym (ap (drop 1) both);
        calm = omega arith;
      }
  one-step w x rest (got (y ∷ z ∷ ys)) at calm e =
      absurd (omega (arith, (d.gives w 0 y (z ∷ ys) e).1))
  one-step w x rest (failed true) at calm e = absurd (omega (arith, (d.breaks w 0 e).1))
  one-step w x rest (failed false) at calm e = absurd (d.holds w 0 e)

  readline_2-from :
      (w : W) (places : ℕ) (line rest stored : List ℕ)
      → occurs 10 line ≡ 0
      → length line < places
      → d.interrupts w ≡ 0
      → d.pending w ≡ line ++ (10 ∷ rest)
      → (after : W) × (readline_2 s w places stored
          ≡ (pos (length (stored ++ line) + 1), (stored ++ line) ++ (10 ∷ 0 ∷ []), after))
        × (d.pending after ≡ rest)
  unfolding readline_2
  readline_2-from w zero line rest stored clean room calm at = absurd (omega arith)
  readline_2-from w (suc places) [] rest stored clean room calm at =
      let o = one-step w 10 rest (s.read w 1).0 at calm refl in
      (
        (s.read w 1).1,
        rw (o.given, readline_2)
            (ap (λ t. (pos (length t + 1), t ++ (10 ∷ 0 ∷ []), (s.read w 1).1))
              (sym (append-nil stored))),
        o.left,
      )
  readline_2-from w (suc places) (c ∷ line) rest stored clean room calm at =
      let o = one-step w c (line ++ (10 ∷ rest)) (s.read w 1).0 at calm refl in
      let other : (c == 10) ≡ false = ground arith in
      let (after, returns, left) =
        readline_2-from (s.read w 1).1 places line rest (stored ++ (c ∷ [])) (omega arith)
          (omega arith) o.calm o.left in
      (
        after,
        rw (o.given, other, readline_2)
            (returns
              ∙ ap (λ t. (pos (length t + 1), t ++ (10 ∷ 0 ∷ []), after))
                  (append_assoc stored (c ∷ []) line)),
        left,
      )

  -- `readline_2` on a socket that delivers without interrupts reads a line that fits, with its newline, and no
  -- byte more, but writes the NUL behind it also where the line fills the buffer.
  pub readline_2-LineRead :
      (w : W) (size : ℕ) (line rest : List ℕ)
      → occurs 10 line ≡ 0
      → length line < size
      → d.interrupts w ≡ 0
      → d.pending w ≡ line ++ (10 ∷ rest)
      → LineRead w line rest (readline_2 s w size [])
  readline_2-LineRead w size line rest clean room calm at =
      let (after, returns, left) = readline_2-from w size line rest [] clean room calm at in
      record { after = after; returns = returns; left = left }
