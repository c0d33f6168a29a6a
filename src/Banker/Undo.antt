-- ===== src/Banker/Undo.antt =====
-- `return_back` after the writes of `try_allocate`.
use cpp_example_code.Base.{ℕ, ◌<◌, ◌≡◌, refl, ap, ◌∙◌, inl, inr, arith}
use cpp_example_code.Base.Tests.{◌==◌, Bool-cases, ==→eq, ==_refl}
use native.Mathlib.Decide.{dec_lt}
use cpp_example_code.Banker.State.{Row, Matrix, Bank, add, sub, int_mod}
use cpp_example_code.Banker.Loops.{update_cells, update_cells_lem, update_cells_above}
use cpp_example_code.Banker.Ops.{update_row, take_request, return_back}
use cpp_example_code.Banker.Sequence.{resources}

-- The counts are ints.
pub record IsBank (s : Bank) : Type 0 where
  pub available : (j : ℕ) → s.available j < int_mod
  pub need : (i j : ℕ) → s.need i j < int_mod
  pub allocate : (i j : ℕ) → s.allocate i j < int_mod

-- Everybody holds, needs and may claim the same in both banks, and the same is available.
pub record SameHoldings (a b : Bank) : Type 0 where
  pub progress_num : a.progress_num ≡ b.progress_num
  pub resource_num : a.resource_num ≡ b.resource_num
  pub max : a.max ≡ b.max
  pub available : (j : ℕ) → a.available j ≡ b.available j
  pub need : (i j : ℕ) → a.need i j ≡ b.need i j
  pub allocate : (i j : ℕ) → a.allocate i j ≡ b.allocate i j

pub sub-add : (a b : ℕ) → a < int_mod → b < int_mod → add (sub a b) b ≡ a
sub-add a b ha hb = omega arith

add-sub : (a b : ℕ) → a < int_mod → b < int_mod → sub (add a b) b ≡ a
add-sub a b ha hb = omega arith

cells_undo :
    (n : ℕ) (f g : ℕ → ℕ → ℕ) (a : Row)
    → ((j : ℕ) → j < n → f j (g j (a j)) ≡ a j)
    → (j : ℕ) → update_cells n f (update_cells n g a) j ≡ a j
cells_undo n f g a undo j = elim (dec_lt j n) [
  | yes inside ↦
      update_cells_lem n f (update_cells n g a) j inside
      ∙ ap (f j) (update_cells_lem n g a j inside)
      ∙ undo j inside
  | no outside ↦
      update_cells_above n f (update_cells n g a) j (omega arith)
      ∙ update_cells_above n g a j (omega arith)
]

row_undo :
    (k n : ℕ) (f g : ℕ → ℕ → ℕ) (m : Matrix)
    → ((j : ℕ) → j < n → f j (g j (m k j)) ≡ m k j)
    → (i j : ℕ) → update_row k n f (update_row k n g m) i j ≡ m i j
row_undo k n f g m undo i j = elim (Bool-cases (i == k)) [
  | inl same ↦ rw (==→eq i k same, ==_refl k) (cells_undo n f g (m k) undo j)
  | inr other ↦ rw other refl
]

-- After `take_request`, `return_back` restores what was there.
pub return_back-SameHoldings :
    (t v : Bank)
    → IsBank t
    → ((j : ℕ) → j < t.resource_num → t.request j < int_mod)
    → resources v ≡ resources (take_request t)
    → SameHoldings (return_back v) t
unfolding return_back take_request
return_back-SameHoldings t v b typed e =
    let width : v.resource_num ≡ t.resource_num = ap (λ t. t.1) e in
    record {
      progress_num = ap (λ t. t.0) e;
      resource_num = width;
      max = ap (λ t. t.4) e;
      available = λ j.
          ap (λ u. update_cells u.1 (λ j a. add a (u.7 j)) u.3 j) e
          ∙ cells_undo t.resource_num (λ j a. add a (t.request j)) (λ j a. sub a (t.request j))
              t.available (λ j h. sub-add (t.available j) (t.request j) (b.available j) (typed j h))
              j;
      need = λ i j.
          ap (λ u. update_row u.2 u.1 (λ j a. add a (u.7 j)) u.5 i j) e
          ∙ row_undo t.id t.resource_num (λ j a. add a (t.request j)) (λ j a. sub a (t.request j))
              t.need (λ j h. sub-add (t.need t.id j) (t.request j) (b.need t.id j) (typed j h)) i j;
      allocate = λ i j.
          ap (λ u. update_row u.2 u.1 (λ j a. sub a (u.7 j)) u.6 i j) e
          ∙ row_undo t.id t.resource_num (λ j a. sub a (t.request j)) (λ j a. add a (t.request j))
              t.allocate
              (λ j h. add-sub (t.allocate t.id j) (t.request j) (b.allocate t.id j) (typed j h)) i
              j;
    }
