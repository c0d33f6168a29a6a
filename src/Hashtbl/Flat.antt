-- ===== src/Hashtbl/Flat.antt =====
-- The whole array as one chain, in the order in which the loops over it meet the entries.
use cpp_example_code.Base.{
  ℕ, zero, suc, ◌+◌, ◌≤◌, ◌≡◌, refl, ◌∙◌, ◌≢◌, Bool, Option, List, [], ◌∷◌, ◌++◌, flatten, arith,
}
use cpp_example_code.Base.Lists.{length, length-append, get_or, All-append}
use cpp_example_code.Hashtbl.State.{Ptr, Chain}
use cpp_example_code.Hashtbl.Read.{IsKeyed, read, copies, IsHashed, read-none}
use cpp_example_code.Hashtbl.Slots.{or_else, home, Stores}

module _ (eq : Ptr → Ptr → Bool) where
  pub read-append :
      (q : Ptr) (a b : Chain) → read eq q (a ++ b) ≡ or_else (read eq q a) (read eq q b)
  unfolding read
  read-append q [] b = refl
  read-append q (e ∷ a) b = ground (arith, read-append q a b)

  pub copies-append : (q : Ptr) (a b : Chain) → copies eq q (a ++ b) ≡ copies eq q a + copies eq q b
  unfolding copies
  copies-append q [] b = omega arith
  copies-append q (e ∷ a) b = omega (arith, copies-append q a b)

module _ {hash : Ptr → ℕ} {eq : Ptr → Ptr → Bool} (laws : IsKeyed hash eq) where
  flatten-IsHashed :
      (t : List Chain) → ((i : ℕ) → IsHashed hash (get_or t i [])) → IsHashed hash (flatten t)
  unfolding flatten
  flatten-IsHashed [] good = tt
  flatten-IsHashed (c ∷ t) good =
      All-append _ c (flatten t) (good 0) (flatten-IsHashed t (λ i. good (suc i)))

  copies-flatten_nowhere :
      (q : Ptr) (t : List Chain)
      → ((i : ℕ) → copies eq q (get_or t i []) ≡ 0)
      → copies eq q (flatten t) ≡ 0
  unfolding flatten copies
  copies-flatten_nowhere q [] out = refl
  copies-flatten_nowhere q (c ∷ t) out = omega (
    arith,
    copies-append eq q c (flatten t),
    out 0,
    copies-flatten_nowhere q t (λ i. out (suc i)),
  )

  -- A key that can stand in slot `j` only is read from that slot.
  flatten_slot :
      (q : Ptr) (t : List Chain) (j : ℕ)
      → ((i : ℕ) → j ≢ i → copies eq q (get_or t i []) ≡ 0)
      → (read eq q (flatten t) ≡ read eq q (get_or t j []))
        × (copies eq q (flatten t) ≡ copies eq q (get_or t j []))
  unfolding flatten read copies
  flatten_slot q [] j out = (refl, refl)
  flatten_slot q (c ∷ t) zero out =
      let rest = copies-flatten_nowhere q t (λ i. out (suc i) (omega arith)) in
      (
        ground (arith, read-append eq q c (flatten t), read-none laws q (flatten t) rest),
        omega (arith, copies-append eq q c (flatten t)),
      )
  flatten_slot q (c ∷ t) (suc j) out =
      let gone = out 0 (omega arith) in
      let (same, many) = flatten_slot q t j (λ i ne. out (suc i) (omega arith)) in
      (
        ground (arith, read-append eq q c (flatten t), read-none laws q c gone),
        omega (arith, copies-append eq q c (flatten t)),
      )

  pub record IsFlat (f : Ptr → Option Ptr) (c : Chain) : Type 0 where
    pub hashed : IsHashed hash c
    pub once : (q : Ptr) → copies eq q c ≤ 1
    pub reads : (q : Ptr) → read eq q c ≡ f q

  pub Stores-IsFlat :
      (n total : ℕ) (f : Ptr → Option Ptr) (t : List Chain)
      → Stores hash eq n total f t
      → IsFlat f (flatten t)
  Stores-IsFlat n total f t s = record {
    hashed = flatten-IsHashed t s.hashed;
    once = λ q. omega (
      arith,
      flatten_slot q t (home hash eq q n) (λ i ne. (s.placed q i).1 ne),
      s.placed q (home hash eq q n),
    );
    reads = λ q. (flatten_slot q t (home hash eq q n) (λ i ne. (s.placed q i).1 ne)).0 ∙ s.reads q;
  }

-- No slot is longer than the whole array.
pub length-slot-le : (t : List Chain) (i : ℕ) → length (get_or t i []) ≤ length (flatten t)
unfolding flatten
length-slot-le [] i = omega arith
length-slot-le (c ∷ t) zero = omega (arith, length-append c (flatten t))
length-slot-le (c ∷ t) (suc i) = omega (arith, length-append c (flatten t), length-slot-le t i)
