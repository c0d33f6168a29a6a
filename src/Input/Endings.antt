-- ===== src/Input/Endings.antt =====
-- `read_line` reads a line with any of the ends that it knows.
use cpp_example_code.Base.{
  ℕ, suc, ◌+◌, ◌-◌, ◌≤◌, ◌≡◌, refl, sym, ap, ◌∙◌, false, List, [], ◌∷◌, ◌++◌, arith,
}
use mathlib.Core.List.{append_assoc, append-nil}
use cpp_example_code.Base.Tests.{◌==◌}
use cpp_example_code.Base.Lists.{length}
use cpp_example_code.Base.Occurs.{occurs}
use cpp_example_code.Base.Int.{pos}
use cpp_example_code.Input.Socket.{Socket, Delivers, Peeks}
use cpp_example_code.Input.Ops.{after_cr, read_line_from, read_line}
use cpp_example_code.Input.Lines.{LineRead, one-step}

-- The ends of a line that `read_line` knows, before what follows: a newline, a CR with a newline, and a CR before
-- another byte.
pub data Ends : List ℕ → List ℕ → Type 0 where
  by_lf : (rest : List ℕ) → Ends rest (10 ∷ rest)
  by_crlf : (rest : List ℕ) → Ends rest (13 ∷ 10 ∷ rest)
  by_cr : (x : ℕ) (rest : List ℕ) → (x == 10) ≡ false → Ends (x ∷ rest) (13 ∷ x ∷ rest)

module _ {W : Type 0} (s : Socket W) (d : Delivers s) where
  -- the rounds of `read_line` before the end of the line
  record Walked (w : W) (line behind stored : List ℕ) (places : ℕ) : Type 0 where
    at : W
    same :
        read_line_from s w (length line + places) stored
        ≡ read_line_from s at places (stored ++ line)
    left : d.pending at ≡ behind
    calm : d.interrupts at ≡ 0

  walk-line :
      (w : W) (line behind stored : List ℕ) (places : ℕ)
      → occurs 10 line ≡ 0
      → occurs 13 line ≡ 0
      → d.interrupts w ≡ 0
      → d.pending w ≡ line ++ behind
      → Walked w line behind stored places
  unfolding read_line_from
  walk-line w [] behind stored places no_lf no_cr calm at = record {
    at = w;
    same =
        let e : 0 + places ≡ places = omega arith in
        rw e (ap (read_line_from s w places) (sym (append-nil stored)));
    left = at;
    calm = calm;
  }
  walk-line w (c ∷ line) behind stored places no_lf no_cr calm at =
      let o = one-step s d w c (line ++ behind) (s.read w 1).0 at calm refl in
      let next =
        walk-line (s.read w 1).1 line behind (stored ++ (c ∷ [])) places (omega arith) (omega arith)
          o.calm o.left in
      let e : suc (length line) + places ≡ suc (length line + places) = omega arith in
      let not_lf : (c == 10) ≡ false = ground arith in
      let not_cr : (c == 13) ≡ false = ground arith in
      record {
        at = next.at;
        same = rw e (
            rw (o.given, not_cr, not_lf, read_line_from)
              (next.same
                ∙ ap (read_line_from s next.at places) (append_assoc stored (c ∷ []) line)));
        left = next.left;
        calm = next.calm;
      }

  -- the round that meets a newline, and the one that meets a CR
  newline-round :
      (w : W) (rest stored : List ℕ) (places : ℕ)
      → d.interrupts w ≡ 0
      → d.pending w ≡ 10 ∷ rest
      → (read_line_from s w (suc places) stored
          ≡ (pos (length stored + 1), stored ++ (10 ∷ 0 ∷ []), (s.read w 1).1))
        × (d.pending (s.read w 1).1 ≡ rest)
  unfolding read_line_from
  newline-round w rest stored places calm at =
      let o = one-step s d w 10 rest (s.read w 1).0 at calm refl in
      (rw (o.given, read_line_from) refl, o.left)

  cr-round :
      (w : W) (rest stored : List ℕ) (places : ℕ)
      → d.interrupts w ≡ 0
      → d.pending w ≡ 13 ∷ rest
      → (read_line_from s w (suc places) stored
          ≡ (pos (length stored + 1), stored ++ (10 ∷ 0 ∷ []), after_cr s (s.read w 1).1))
        × (d.pending (s.read w 1).1 ≡ rest)
        × (d.interrupts (s.read w 1).1 ≡ 0)
  unfolding read_line_from
  cr-round w rest stored places calm at =
      let o = one-step s d w 13 rest (s.read w 1).0 at calm refl in
      (rw (o.given, read_line_from) refl, o.left, o.calm)

  module _ (p : Peeks s d) where
    after_cr-newline :
        (w : W) (rest : List ℕ)
        → d.interrupts w ≡ 0
        → d.pending w ≡ 10 ∷ rest
        → d.pending (after_cr s w) ≡ rest
    unfolding after_cr
    after_cr-newline w rest calm at =
        let (same, quiet) = p.keeps w in
        let o =
          one-step s d (s.peek w 1).1 10 rest (s.read (s.peek w 1).1 1).0 (same ∙ at) (quiet ∙ calm)
            refl in
        rw (p.shows w 10 rest at, after_cr) o.left

    after_cr-other :
        (w : W) (x : ℕ) (rest : List ℕ)
        → (x == 10) ≡ false
        → d.pending w ≡ x ∷ rest
        → d.pending (after_cr s w) ≡ x ∷ rest
    unfolding after_cr
    after_cr-other w x rest other at =
        rw (p.shows w x rest at, other, after_cr) ((p.keeps w).0 ∙ at)

    ending-read :
        (w : W) (rest behind stored : List ℕ) (places : ℕ)
        → Ends rest behind
        → d.interrupts w ≡ 0
        → d.pending w ≡ behind
        → (after : W) × (read_line_from s w (suc places) stored
            ≡ (pos (length stored + 1), stored ++ (10 ∷ 0 ∷ []), after))
          × (d.pending after ≡ rest)
    ending-read w _ _ stored places (by_lf rest) calm at =
        let (returns, left) = newline-round w rest stored places calm at in
        ((s.read w 1).1, returns, left)
    ending-read w _ _ stored places (by_crlf rest) calm at =
        let (returns, left, quiet) = cr-round w (10 ∷ rest) stored places calm at in
        (after_cr s (s.read w 1).1, returns, after_cr-newline (s.read w 1).1 rest quiet left)
    ending-read w _ _ stored places (by_cr x rest other) calm at =
        let (returns, left, quiet) = cr-round w (x ∷ rest) stored places calm at in
        (after_cr s (s.read w 1).1, returns, after_cr-other (s.read w 1).1 x rest other left)

    -- `read_line` on a socket that delivers without interrupts, and shows what MSG_PEEK asks for, reads a line that
    -- fits the buffer with the NUL, whatever its end: the line is stored with one newline, and the end, and no
    -- byte more, has been taken from the socket.
    pub read_line-LineRead :
        (w : W) (size : ℕ) (line rest behind : List ℕ)
        → occurs 10 line ≡ 0
        → occurs 13 line ≡ 0
        → Ends rest behind
        → length line + 2 ≤ size
        → d.interrupts w ≡ 0
        → d.pending w ≡ line ++ behind
        → LineRead s d w line rest (read_line s w size)
    unfolding read_line
    read_line-LineRead w size line rest behind no_lf no_cr end room calm at =
        let places = size - length line - 2 in
        let all : size - 1 ≡ length line + suc places = omega arith in
        let walked = walk-line w line behind [] (suc places) no_lf no_cr calm at in
        let (after, returns, left) =
          ending-read walked.at rest behind line places end walked.calm walked.left in
        record {
          after = after;
          returns = ap (λ n. read_line_from s w n []) all ∙ walked.same ∙ returns;
          left = left;
        }
