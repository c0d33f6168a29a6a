-- ===== src/Input/Readn.antt =====
-- `readn` reads what it is asked for, however the bytes arrive.
use cpp_example_code.Base.{
  ℕ, zero, suc, ◌+◌, ◌-◌, ◌^◌, ◌≤◌, ◌<◌, ◌≡◌, refl, sym, ap, ◌∙◌, true, false, Option, some, List,
  [], ◌∷◌, ◌++◌, arith,
}
use mathlib.Core.List.{append_assoc, append-nil}
use cpp_example_code.Base.Tests.{leb}
use cpp_example_code.Base.Lists.{length, take, drop}
use cpp_example_code.Base.Int.{ℤ, pos}
use cpp_example_code.Input.Socket.{Answer, got, failed, Socket, Delivers}
use cpp_example_code.Input.Ops.{readn_loop, readn}

take-across :
    (xs ys : List ℕ) (n : ℕ) → length xs ≤ n → take n (xs ++ ys) ≡ xs ++ take (n - length xs) ys
take-across [] ys n le = let e : n - 0 ≡ n = omega arith in rw e refl
take-across (x ∷ xs) ys zero le = absurd (omega arith)
take-across (x ∷ xs) ys (suc n) le =
    let e : suc n - suc (length xs) ≡ n - length xs = omega arith in
    rw e (ap (λ t. x ∷ t) (take-across xs ys n (omega arith)))

drop-across : (xs ys : List ℕ) (n : ℕ) → length xs ≤ n → drop n (xs ++ ys) ≡ drop (n - length xs) ys
drop-across [] ys n le = let e : n - 0 ≡ n = omega arith in rw e refl
drop-across (x ∷ xs) ys zero le = absurd (omega arith)
drop-across (x ∷ xs) ys (suc n) le =
    let e : suc n - suc (length xs) ≡ n - length xs = omega arith in
    rw e (drop-across xs ys n (omega arith))

module _ {W : Type 0} (s : Socket W) (d : Delivers s) where
  -- What a read of `n` more bytes promises: the next `n` that arrive, or all of them where the input ends
  -- before, are stored behind those that were; the bytes after them are still to be read.
  pub record Filled (w : W) (n : ℕ) (stored : List ℕ) (out : Option (ℤ × List ℕ × W)) : Type 0 where
    pub after : W
    pub returns :
        out
        ≡ some
            (pos (length (stored ++ take n (d.pending w))), stored ++ take n (d.pending w), after)
    pub left : d.pending after ≡ drop n (d.pending w)
    pub calmer : d.interrupts after ≤ d.interrupts w

  -- what follows from a read's answer, with the loop's result on less fuel
  loop-step :
      (fuel : ℕ) (w : W) (n : ℕ) (stored : List ℕ) (a : Answer)
      → ((v : W) (m : ℕ) (bytes : List ℕ)
          → m + d.interrupts v < fuel
          → Filled v m bytes (readn_loop s fuel v m bytes))
      → suc n + d.interrupts w < suc fuel
      → (s.read w (suc n)).0 ≡ a
      → Filled w (suc n) stored (readn_loop s (suc fuel) w (suc n) stored)
  unfolding readn_loop
  loop-step fuel w n stored (got []) again enough e =
      let (none_left, none_after, calmer) = d.ends w n e in
      let nothing : stored ++ take (suc n) (d.pending w) ≡ stored =
        ap (λ t. stored ++ take (suc n) t) none_left ∙ append-nil stored in
      record {
        after = (s.read w (suc n)).1;
        returns =
            rw (e, readn_loop)
              (ap (λ t. some (pos (length t), t, (s.read w (suc n)).1)) (sym nothing));
        left = none_after ∙ sym (ap (drop (suc n)) none_left);
        calmer = calmer;
      }
  loop-step fuel w n stored (got (x ∷ xs)) again enough e =
      let (front, le, fewer) = d.gives w n x xs e in
      let w' = (s.read w (suc n)).1 in
      let fits : leb (length xs) n ≡ true = ground arith in
      let next = again w' (n - length xs) (stored ++ (x ∷ xs)) (omega arith) in
      let all : (stored ++ (x ∷ xs)) ++ take (n - length xs) (d.pending w')
          ≡ stored ++ take (suc n) (d.pending w) =
        append_assoc stored (x ∷ xs) (take (n - length xs) (d.pending w'))
        ∙ ap (λ t. stored ++ (x ∷ t)) (sym (take-across xs (d.pending w') n le))
        ∙ ap (λ t. stored ++ take (suc n) t) (sym front) in
      record {
        after = next.after;
        returns =
            rw (e, fits, readn_loop)
              (next.returns ∙ ap (λ t. some (pos (length t), t, next.after)) all);
        left = next.left ∙ sym (ap (drop (suc n)) front ∙ drop-across xs (d.pending w') n le);
        calmer = omega (arith, next.calmer);
      }
  loop-step fuel w n stored (failed true) again enough e =
      let (same, fewer) = d.breaks w n e in
      let next = again (s.read w (suc n)).1 (suc n) stored (omega arith) in
      record {
        after = next.after;
        returns =
            rw (e, readn_loop)
              (next.returns
                ∙ ap
                    (λ t. some (
                      pos (length (stored ++ take (suc n) t)),
                      stored ++ take (suc n) t,
                      next.after,
                    ))
                    same);
        left = next.left ∙ ap (drop (suc n)) same;
        calmer = omega (arith, next.calmer);
      }
  loop-step fuel w n stored (failed false) again enough e = absurd (d.holds w n e)

  loop-Filled :
      (fuel : ℕ) (w : W) (n : ℕ) (stored : List ℕ)
      → n + d.interrupts w < fuel
      → Filled w n stored (readn_loop s fuel w n stored)
  unfolding readn_loop
  loop-Filled zero w n stored enough = absurd (omega arith)
  loop-Filled (suc fuel) w zero stored enough = record {
    after = w;
    returns = ap (λ t. some (pos (length t), t, w)) (sym (append-nil stored));
    left = refl;
    calmer = omega arith;
  }
  loop-Filled (suc fuel) w (suc n) stored enough =
      loop-step fuel w n stored (s.read w (suc n)).0 (loop-Filled fuel) enough refl

  -- `readn` comes to its end on a socket that delivers, however the bytes are cut into pieces and the calls
  -- interrupted: it stores the next `n` bytes, or all that are left where the input ends before, and
  -- returns their number; the bytes after them are still to be read.
  pub readn-Filled :
      (fuel : ℕ) (w : W) (n : ℕ)
      → n < 2 ^ 31
      → n + d.interrupts w < fuel
      → Filled w n [] (readn s fuel w n)
  unfolding readn
  readn-Filled fuel w n small enough =
      let int : leb (2 ^ 31) n ≡ false = ground arith in rw int (loop-Filled fuel w n [] enough)
