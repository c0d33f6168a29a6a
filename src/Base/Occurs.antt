-- ===== src/Base/Occurs.antt =====
-- How often a number is in a list, and lists with one less of it.
use Prim.Native.Nat.{ℕ, ◌+◌, ◌<◌}
use mathlib.Core.Path.{◌≡◌, ap}
use mathlib.Core.Logic.{inl, inr}
use mathlib.Core.Bool.{Bool, true, false}
use mathlib.Core.List.{List, [], ◌∷◌, ◌++◌}
use native.Mathlib.Omega.{arith}
use cpp_example_code.Base.Tests.{◌==◌, if◌then◌else◌, Bool-cases, ==→eq, ==_refl}

abbrev pub one_if : Bool → ℕ
one_if true = 1
one_if false = 0

-- how often a number is in a list
abbrev pub occurs : ℕ → List ℕ → ℕ
occurs a [] = 0
occurs a (x ∷ xs) = one_if (a == x) + occurs a xs

abbrev pub erase : ℕ → List ℕ → List ℕ
erase a [] = []
erase a (x ∷ xs) = if a == x then xs else x ∷ erase a xs

-- The last node of a list, or `a` where it is empty.
abbrev pub last_or : ℕ → List ℕ → ℕ
last_or a [] = a
last_or a (x ∷ xs) = last_or x xs

pub occurs-erase :
    (q a : ℕ) (xs : List ℕ)
    → 0 < occurs a xs
    → occurs q (erase a xs) + one_if (q == a) ≡ occurs q xs
occurs-erase q a [] h = absurd (omega arith)
occurs-erase q a (x ∷ xs) h = elim (Bool-cases (a == x)) [
  | inl e ↦ rw (e, ==→eq a x e) (omega arith)
  | inr e ↦ let rest = occurs-erase q a xs (ground arith) in rw e (omega arith)
]

pub occurs-last_or : (a : ℕ) (xs : List ℕ) → 0 < occurs (last_or a xs) (a ∷ xs)
occurs-last_or a [] = rw (==_refl a) (omega arith)
occurs-last_or a (x ∷ xs) = omega (arith, occurs-last_or x xs)

pub ne_of_occurs : (a b : ℕ) (xs : List ℕ) → occurs a xs ≡ 0 → 0 < occurs b xs → (a == b) ≡ false
ne_of_occurs a b xs h g = elim (Bool-cases (a == b)) [
  | inl e ↦
      (let same : occurs a xs ≡ occurs b xs = ap (λ c. occurs c xs) (==→eq a b e) in
        absurd (omega arith))
  | inr e ↦ e
]

pub occurs-append : (c : ℕ) (xs ys : List ℕ) → occurs c (xs ++ ys) ≡ occurs c xs + occurs c ys
occurs-append c [] ys = omega arith
occurs-append c (x ∷ xs) ys = omega (arith, occurs-append c xs ys)
