-- ===== src/Banker/Init.antt =====
-- `init_system`: the bank that the user's numbers set up.
use cpp_example_code.Base.{ℕ, zero, suc, ◌<◌, ◌≡◌, ap, ◌∙◌, false, Option, none, some, arith}
use cpp_example_code.Base.Loops.{for_each}
use cpp_example_code.Banker.State.{Row, Matrix, Bank, add, sub, int_mod}
use cpp_example_code.Banker.Loops.{update_cells, update_cells_lem}
use cpp_example_code.Banker.Undo.{sub-add}

-- `for (i = 0; i < p; i++) for (j = 0; j < r; j++) m[i][j] = v(i, j);`
abbrev pub fill : ℕ → ℕ → Matrix → Matrix → Matrix
fill p r v m = update_cells p (λ i row. update_cells r (λ j _. v i j) row) m

-- the numbers typed, where `chosen` is the matrix typed after the answer y, and `none` the answer n
unfoldable pub read_system : ℕ → ℕ → Row → Matrix → Option Matrix → Bank → Bank
read_system p r total most chosen s = record s {
  progress_num = p;
  resource_num = r;
  available = update_cells r (λ j _. total j) s.available;
  max = fill p r most s.max;
  allocate = elim chosen [ none ↦ λ _ _. 0 | some held ↦ fill p r held s.allocate ];
  work_allocation = elim chosen [ none ↦ λ _ _. 0 | some _ ↦ s.work_allocation ];
  request = λ _. 0;
  work = λ _. 0;
  finish = λ _. false;
}

-- the loops behind the input: `Need`, what is left of `Available`, and `work_allocation`
unfoldable pub settle : Bank → Bank
settle s = record s {
  need = fill s.progress_num s.resource_num (λ i j. sub (s.max i j) (s.allocate i j)) s.need;
  available =
      for_each s.progress_num (λ i a. update_cells s.resource_num (λ j v. sub v (s.allocate i j)) a)
        s.available;
  work_allocation =
      fill s.progress_num s.resource_num (λ i j. add (s.allocate i j) (s.work j)) s.work_allocation;
}

unfoldable pub init_system : ℕ → ℕ → Row → Matrix → Option Matrix → Bank → Bank
init_system p r total most chosen s = settle (read_system p r total most chosen s)

-- What the first `n` processes hold of resource `j`.
abbrev pub held : ℕ → Matrix → ℕ → ℕ
held zero m j = 0
held (suc n) m j = add (held n m j) (m n j)

fill_lem : (p r : ℕ) (v m : Matrix) (i j : ℕ) → i < p → j < r → fill p r v m i j ≡ v i j
fill_lem p r v m i j hi hj =
    ap (λ (row : Row). row j)
      (update_cells_lem p (λ i row. update_cells r (λ j _. v i j) row) m i hi)
    ∙ update_cells_lem r (λ j _. v i j) (m i) j hj

held_left :
    (n r : ℕ) (m : Matrix) (a : Row) (j : ℕ)
    → j < r
    → ((i : ℕ) → i < n → m i j < int_mod)
    → a j < int_mod
    → add (for_each n (λ i a. update_cells r (λ j v. sub v (m i j)) a) a j) (held n m j) ≡ a j
unfolding for_each
held_left zero r m a j inside words small = omega arith
held_left (suc n) r m a j inside words small =
    let before = for_each n (λ i a. update_cells r (λ j v. sub v (m i j)) a) a in
    let earlier : add (before j) (held n m j) ≡ a j =
      held_left n r m a j inside (λ i h. words i (omega arith)) small in
    rw (update_cells_lem r (λ j v. sub v (m n j)) before j inside)
      (omega (arith, earlier, words n (omega arith)))

-- Behind the loops, what every process holds and still needs is what it may claim, and what is
-- available and what all of them hold is the number typed for the resource.
pub record IsBalanced (p r : ℕ) (total : Row) (most : Matrix) (s : Bank) : Type 0 where
  pub claims : (i j : ℕ) → i < p → j < r → add (s.need i j) (s.allocate i j) ≡ most i j
  pub accounts : (j : ℕ) → j < r → add (s.available j) (held p s.allocate j) ≡ total j

-- From numbers that are ints, `init_system` sets up a balanced bank, whichever answer is given.
pub init_system-IsBalanced :
    (p r : ℕ) (total : Row) (most : Matrix) (chosen : Option Matrix) (s : Bank)
    → ((j : ℕ) → total j < int_mod)
    → ((i j : ℕ) → most i j < int_mod)
    → ((i j : ℕ) → (read_system p r total most chosen s).allocate i j < int_mod)
    → IsBalanced p r total most (init_system p r total most chosen s)
unfolding init_system settle read_system
init_system-IsBalanced p r total most chosen s total_ok most_ok held_ok =
    let t = read_system p r total most chosen s in
    record {
      claims = λ i j hi hj.
          rw
            (
              fill_lem p r (λ i j. sub (t.max i j) (t.allocate i j)) s.need i j hi hj,
              fill_lem p r most s.max i j hi hj,
            )
            (sub-add (most i j) (t.allocate i j) (most_ok i j) (held_ok i j));
      accounts = λ j hj.
          let typed : t.available j ≡ total j =
            update_cells_lem r (λ j _. total j) s.available j hj in
          held_left p r t.allocate t.available j hj (λ i h. held_ok i j) (rw typed (total_ok j))
          ∙ typed;
    }
