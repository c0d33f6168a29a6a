-- ===== src/Banker/Granted.antt =====
-- The tests of `try_allocate`, resource by resource.
use cpp_example_code.Base.{ℕ, zero, suc, ◌<◌, ◌≡◌, refl, inl, inr, Bool, true, false, ◌||◌, arith}
use cpp_example_code.Base.Tests.{◌==◌, if◌then◌else◌, Bool-cases, ==→eq}
use cpp_example_code.Base.Loops.{for_each}
use cpp_example_code.Banker.State.{Row, Bank, gt}

-- The request for resource `j` is at most what is needed and what is available.
pub record Allowed (s : Bank) (id : ℕ) (typed : Row) (j : ℕ) : Type 0 where
  pub needed : gt (typed j) (s.need id j) ≡ false
  pub there : gt (typed j) (s.available j) ≡ false

abbrev pub too_much : Bank → ℕ → Row → ℕ → Bool
too_much s id typed j = gt (typed j) (s.need id j) || gt (typed j) (s.available j)

abbrev pub granted_upto : ℕ → Bank → Bool
granted_upto n s =
    for_each n
      (λ j ret.
        if gt (s.request j) (s.need s.id j)
        then false
        else if gt (s.request j) (s.available j)
        then false
        else ret)
      true

pub granted_upto-all :
    (n : ℕ) (s : Bank) → granted_upto n s ≡ true → (j : ℕ) → j < n → Allowed s s.id s.request j
unfolding for_each
granted_upto-all zero s h j inside = absurd (omega arith)
granted_upto-all (suc n) s h j inside = elim (Bool-cases (gt (s.request n) (s.need s.id n))) [
  | inl over ↦ (let wrong : false ≡ true = rw over at h in cc)
  | inr ok ↦ elim (Bool-cases (gt (s.request n) (s.available n))) [
    | inl over ↦ (let wrong : false ≡ true = rw (ok, over) at h in cc)
    | inr fine ↦ elim (Bool-cases (j == n)) [
      | inl here ↦ rw (==→eq j n here) (record { needed = ok; there = fine })
      | inr earlier ↦ granted_upto-all n s (rw (ok, fine) at h) j (ground arith)
    ]
  ]
]

pub granted_upto-some :
    (n : ℕ) (s : Bank)
    → granted_upto n s ≡ false
    → (j : ℕ) × (j < n) × (too_much s s.id s.request j ≡ true)
unfolding for_each
granted_upto-some zero s h = cc
granted_upto-some (suc n) s h = elim (Bool-cases (gt (s.request n) (s.need s.id n))) [
  | inl over ↦ (n, omega arith, rw over refl)
  | inr ok ↦ elim (Bool-cases (gt (s.request n) (s.available n))) [
    | inl over ↦ (n, omega arith, rw (ok, over) refl)
    | inr fine ↦
        let (j, inside, much) = granted_upto-some n s (rw (ok, fine) at h) in (j, omega arith, much)
  ]
]
