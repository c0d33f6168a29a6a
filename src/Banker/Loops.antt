-- ===== src/Banker/Loops.antt =====
-- Counting loops and writes to arrays, with what a loop that writes each cell once leaves there.
use cpp_example_code.Base.{ℕ, zero, suc, ◌≤◌, ◌<◌, ◌≡◌, refl, ap, ◌∙◌, inl, inr, false, arith}
use cpp_example_code.Base.Tests.{◌==◌, Bool-cases, ==→eq}
use cpp_example_code.Base.Loops.{for_each, assign, assign_self}

-- `for (j = 0; j < n; j++) a[j] = g(j, a[j]);`
abbrev pub update_cells {ℓ} : {A : Type ℓ} → ℕ → (ℕ → A → A) → (ℕ → A) → ℕ → A
update_cells n g a = for_each n (λ j b. assign b j (g j (b j))) a

pub update_cells_above {ℓ} :
    {A : Type ℓ} (n : ℕ) (g : ℕ → A → A) (a : ℕ → A) (j : ℕ) → n ≤ j → update_cells n g a j ≡ a j
unfolding for_each
update_cells_above zero g a j h = refl
update_cells_above (suc n) g a j h =
    let other : (j == n) ≡ false = ground arith in
    rw other (update_cells_above n g a j (omega arith))

pub update_cells_lem {ℓ} :
    {A : Type ℓ} (n : ℕ) (g : ℕ → A → A) (a : ℕ → A) (j : ℕ)
    → j < n
    → update_cells n g a j ≡ g j (a j)
unfolding for_each
update_cells_lem zero g a j h = absurd (omega arith)
update_cells_lem (suc n) g a j h = elim (Bool-cases (j == n)) [
  | inl e ↦
      let same : j ≡ n = ==→eq j n e in
      rw same (
        assign_self (update_cells n g a) n (g n (update_cells n g a n))
        ∙ ap (g n) (update_cells_above n g a n (omega arith)))
  | inr e ↦ rw e (update_cells_lem n g a j (ground arith))
]
