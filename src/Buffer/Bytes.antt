-- ===== src/Buffer/Bytes.antt =====
-- Cells of a list by their place, and what the copies of buffer.c leave in them.
use cpp_example_code.Base.{
  ℕ, zero, suc, ◌+◌, ◌-◌, ◌≤◌, ◌<◌, ◌≡◌, refl, ap, ◌∙◌, inl, inr, true, false, List, [], ◌∷◌, ◌++◌,
  arith,
}
use cpp_example_code.Base.Tests.{ltb, ◌==◌, if◌then◌else◌, Bool-cases, ==_refl}
use cpp_example_code.Base.Lists.{length, get_or, set, take, drop, length-set, get_or-set}
use cpp_example_code.Base.Loops.{for_each}
use cpp_example_code.Buffer.Ops.{copy_down, write_at, cells}

pub same_place : (d : List ℕ) (i j : ℕ) → i ≡ j → get_or d i 0 ≡ get_or d j 0
same_place d i j e = ap (λ t. get_or d t 0) e

pub cells_shift :
    (n a b : ℕ) (d d' : List ℕ)
    → ((k : ℕ) → k < n → get_or d (a + k) 0 ≡ get_or d' (b + k) 0)
    → cells n a d ≡ cells n b d'
unfolding cells
cells_shift zero a b d d' h = refl
cells_shift (suc n) a b d d' h =
    let first : get_or d a 0 ≡ get_or d' b 0 =
      same_place d a (a + 0) (omega arith)
      ∙ h 0 (omega arith)
      ∙ same_place d' (b + 0) b (omega arith) in
    let rest : cells n (a + 1) d ≡ cells n (b + 1) d' =
      cells_shift n (a + 1) (b + 1) d d' (λ k inside.
        same_place d (a + 1 + k) (a + suc k) (omega arith)
        ∙ h (suc k) (omega arith)
        ∙ same_place d' (b + suc k) (b + 1 + k) (omega arith)) in
    cc

pub cells-append : (m n a : ℕ) (d : List ℕ) → cells (m + n) a d ≡ cells m a d ++ cells n (a + m) d
unfolding cells
cells-append zero n a d =
    let e : 0 + n ≡ n = omega arith in
    let e' : a ≡ a + 0 = omega arith in ap (λ t. cells t a d) e ∙ ap (λ t. cells n t d) e'
cells-append (suc m) n a d =
    let e : suc m + n ≡ suc (m + n) = omega arith in
    let e' : a + 1 + m ≡ a + suc m = omega arith in
    ap (λ t. cells t a d) e
    ∙ ap (λ t. get_or d a 0 ∷ t) (cells-append m n (a + 1) d)
    ∙ ap (λ t. get_or d a 0 ∷ (cells m (a + 1) d ++ cells n t d)) e'

cells_tail : (n a x : ℕ) (d : List ℕ) → cells n (suc a) (x ∷ d) ≡ cells n a d
cells_tail n a x d =
    cells_shift n (suc a) a (x ∷ d) d
      (λ k h. same_place (x ∷ d) (suc a + k) (suc (a + k)) (omega arith))

pub cells_whole : (d : List ℕ) → cells (length d) 0 d ≡ d
unfolding cells
cells_whole [] = refl
cells_whole (x ∷ d) = ap (λ t. x ∷ t) (cells_tail (length d) 0 x d ∙ cells_whole d)

pub length-write_at : (d : List ℕ) (at : ℕ) (src : List ℕ) → length (write_at d at src) ≡ length d
unfolding write_at
length-write_at d at [] = refl
length-write_at d at (x ∷ src) = length-write_at (set d at x) (at + 1) src ∙ length-set d at x

pub write_at-before :
    (d : List ℕ) (at : ℕ) (src : List ℕ) (j : ℕ)
    → at + length src ≤ length d
    → j < at
    → get_or (write_at d at src) j 0 ≡ get_or d j 0
unfolding write_at
write_at-before d at [] j room h = refl
write_at-before d at (x ∷ src) j room h =
    let other : (at == j) ≡ false = ground arith in
    write_at-before (set d at x) (at + 1) src j (omega (arith, length-set d at x)) (omega arith)
    ∙ get_or-set d at j x 0 (omega arith)
    ∙ rw other refl

pub write_at-there :
    (d : List ℕ) (at : ℕ) (src : List ℕ) (k : ℕ)
    → at + length src ≤ length d
    → k < length src
    → get_or (write_at d at src) (at + k) 0 ≡ get_or src k 0
unfolding write_at
write_at-there d at [] k room h = absurd (omega arith)
write_at-there d at (x ∷ src) zero room h =
    same_place (write_at (set d at x) (at + 1) src) (at + 0) at (omega arith)
    ∙ write_at-before (set d at x) (at + 1) src at (omega (arith, length-set d at x)) (omega arith)
    ∙ get_or-set d at at x 0 (omega arith)
    ∙ rw (==_refl at) refl
write_at-there d at (x ∷ src) (suc k) room h =
    same_place (write_at (set d at x) (at + 1) src) (at + suc k) (at + 1 + k) (omega arith)
    ∙ write_at-there (set d at x) (at + 1) src k (omega (arith, length-set d at x)) (omega arith)

pub length-copy_down : (from n : ℕ) (d : List ℕ) → length (copy_down from n d) ≡ length d
unfolding copy_down for_each
length-copy_down from zero d = refl
length-copy_down from (suc n) d =
    length-set (copy_down from n d) n (get_or (copy_down from n d) (from + n) 0)
    ∙ length-copy_down from n d

pub copy_down_lem :
    (from n : ℕ) (d : List ℕ) (j : ℕ)
    → from + n ≤ length d
    → get_or (copy_down from n d) j 0 ≡ (if ltb j n then get_or d (from + j) 0 else get_or d j 0)
unfolding copy_down for_each
copy_down_lem from zero d j room = ground arith
copy_down_lem from (suc n) d j room =
    let so_far = copy_down from n d in
    let moved : get_or so_far (from + n) 0 ≡ get_or d (from + n) 0 =
      copy_down_lem from n d (from + n) (omega arith) ∙ ground arith in
    get_or-set so_far n j (get_or so_far (from + n) 0) 0 (omega (arith, length-copy_down from n d))
    ∙ (let earlier = copy_down_lem from n d j (omega arith) in
        elim (Bool-cases (n == j)) [
          | inl here ↦
              let last : ltb j (suc n) ≡ true = ground arith in
              rw (here, last) (moved ∙ same_place d (from + n) (from + j) (ground arith))
          | inr other ↦
              let same : ltb j (suc n) ≡ ltb j n = ground arith in rw (other, same) earlier
        ])

pub take-cells :
    (k n from : ℕ) (src : List ℕ) → k ≤ n → cells k from src ≡ take k (cells n from src)
unfolding cells
take-cells zero n from src le = refl
take-cells (suc k) zero from src le = absurd (omega arith)
take-cells (suc k) (suc n) from src le =
    ap (λ t. get_or src from 0 ∷ t) (take-cells k n (from + 1) src (omega arith))

pub drop-cells :
    (k n from : ℕ) (src : List ℕ) → k ≤ n → cells (n - k) (from + k) src ≡ drop k (cells n from src)
unfolding cells
drop-cells zero n from src le =
    let a : n - 0 ≡ n = omega arith in let b : from + 0 ≡ from = omega arith in rw (a, b) refl
drop-cells (suc k) zero from src le = absurd (omega arith)
drop-cells (suc k) (suc n) from src le =
    let a : suc n - suc k ≡ n - k = omega arith in
    let b : from + suc k ≡ from + 1 + k = omega arith in
    rw (a, b) (drop-cells k n (from + 1) src (omega arith))

pub length-cells : (n from : ℕ) (src : List ℕ) → length (cells n from src) ≡ n
unfolding cells
length-cells zero from src = refl
length-cells (suc n) from src = ap suc (length-cells n (from + 1) src)
