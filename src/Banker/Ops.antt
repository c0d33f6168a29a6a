-- ===== src/Banker/Ops.antt =====
-- The functions of banker.c. What the user types is an argument, what is printed is left out, and
-- a loop that writes several arrays, each cell once, is one loop for each array.
-- `none` is a run that waits for input for ever or that is out of fuel.
use cpp_example_code.Base.{
  ℕ, zero, suc, ◌+◌, ◌*◌, Bool, true, false, ◌&&◌, Option, none, some, List, [], ◌∷◌, ◌++◌,
}
use cpp_example_code.Base.Tests.{ltb, ◌==◌, if◌then◌else◌}
use cpp_example_code.Base.Int.{ℤ, pos, negsuc}
use cpp_example_code.Base.Loops.{for_each, assign}
use cpp_example_code.Banker.State.{Row, Matrix, Bank, add, sub, gt}
use cpp_example_code.Banker.Loops.{update_cells}

-- The row in which `for (j = 0; j < n; j++)` has written g(j, a[j]) to a[j].
abbrev pub update_row : ℕ → ℕ → (ℕ → ℕ → ℕ) → Matrix → Matrix
update_row i n g a = assign a i (update_cells n g (a i))

-- The `j` at which the loop `if (Need[i][j] > Work[j]) break;` ends, `n` steps before the last.
unfoldable pub lacking : ℕ → ℕ → Row → Row → ℕ
lacking zero j need work = j
lacking (suc n) j need work =
    let rest = lacking n (j + 1) need work in if gt (need j) (work j) then j else rest

unfoldable pub fits : Bank → ℕ → Bool
fits s i = lacking s.resource_num 0 (s.need i) s.work == s.resource_num

-- what `is_safe` does for a process that can finish
unfoldable pub finish_process : Bank → ℕ → Bank
finish_process s i =
    let work = update_cells s.resource_num (λ j w. add w (s.allocate i j)) s.work in
    record s {
      safe = s.safe ++ (i ∷ []);
      work = work;
      work_allocation = update_row i s.resource_num (λ j _. work j) s.work_allocation;
      finish = assign s.finish i true;
    }

-- one round of the loop over the processes, with the `i` of the next one
unfoldable pub scan_step : ℕ → Bank → ℕ × Bank
scan_step i s =
    if s.finish i
    then (i + 1, s)
    else if fits s i
    then (if i + 1 == s.progress_num then 0 else i + 1, finish_process s i)
    else (i + 1, s)

unfoldable pub scan : ℕ → ℕ → Bank → Option Bank
scan zero i s = none
scan (suc fuel) i s = elim (ltb i s.progress_num) [
  | true ↦ scan fuel (scan_step i s).0 (scan_step i s).1
  | false ↦ some s
]

-- the first lines of `is_safe`
unfoldable pub begin_check : Bank → Bank
begin_check s = record s {
  work = update_cells s.resource_num (λ j _. s.available j) s.work;
  work_allocation = update_row 0 s.resource_num (λ j _. s.available j) (λ _ _. 0);
  finish = update_cells s.progress_num (λ _ _. false) s.finish;
  safe = [];
}

unfoldable pub all_finished : ℕ → (ℕ → Bool) → Bool
all_finished zero finish = true
all_finished (suc n) finish = all_finished n finish && finish n

-- `is_safe`: the loop restarts at most once, so it has at most two rounds for each process and the
-- one that ends it.
unfoldable pub is_safe : Bank → Option (Bool × Bank)
is_safe s = elim (scan (2 * s.progress_num + 1) 0 (begin_check s)) [
  | none ↦ none
  | some s' ↦ some (all_finished s'.progress_num s'.finish, s')
]

-- the loop that asks for the process until the number is in range
unfoldable pub read_id : ℕ → List ℤ → Option ℕ
read_id n [] = none
read_id n (negsuc _ ∷ typed) = read_id n typed
read_id n (pos k ∷ typed) = let rest = read_id n typed in if ltb n k then rest else some k

-- the tests of `try_allocate`, on the values before the loop writes them
unfoldable pub granted : Bank → Bool
granted s =
    for_each s.resource_num
      (λ j ret.
        if gt (s.request j) (s.need s.id j)
        then false
        else if gt (s.request j) (s.available j)
        then false
        else ret)
      true

-- its writes
unfoldable pub take_request : Bank → Bank
take_request s = record s {
  available = update_cells s.resource_num (λ j a. sub a (s.request j)) s.available;
  allocate = update_row s.id s.resource_num (λ j a. add a (s.request j)) s.allocate;
  need = update_row s.id s.resource_num (λ j a. sub a (s.request j)) s.need;
}

-- what it writes before: `Work` beside what is held, the process and the request
abbrev pub ask : ℕ → Row → Bank → Bank
ask id typed s = record s {
  work_allocation =
      update_cells s.progress_num
        (λ i row. update_cells s.resource_num (λ j _. add (s.allocate i j) (s.work j)) row)
        s.work_allocation;
  id = id;
  request = update_cells s.resource_num (λ j _. typed j) s.request;
}

-- `try_allocate`, with the numbers typed for the process and the row typed for the request
unfoldable pub try_allocate : List ℤ → Row → Bank → Option (Bool × Bank)
try_allocate ids typed s = elim (read_id s.progress_num ids) [
  | none ↦ none
  | some id ↦ some (granted (ask id typed s), take_request (ask id typed s))
]

unfoldable pub return_back : Bank → Bank
return_back s =
    let allocate = update_row s.id s.resource_num (λ j a. sub a (s.request j)) s.allocate in
    record s {
      finish = λ _. false;
      available = update_cells s.resource_num (λ j a. add a (s.request j)) s.available;
      allocate = allocate;
      need = update_row s.id s.resource_num (λ j a. add a (s.request j)) s.need;
      work_allocation =
          update_cells s.progress_num
            (λ i row. update_cells s.resource_num (λ j _. allocate i j) row) (λ _ _. 0);
    }

-- `main`, choice 2
unfoldable pub request_choice : List ℤ → Row → Bank → Option Bank
request_choice ids typed s = elim (try_allocate ids typed s) [
  | none ↦ none
  | some (false, s') ↦ some (return_back s')
  | some (true, s') ↦ elim (is_safe s') [
    | none ↦ none
    | some (true, checked) ↦ some (record checked { flag = true })
    | some (false, checked) ↦ some (return_back (record checked { flag = false }))
  ]
]

-- `main`, choice 4
unfoldable pub check_choice : Bank → Option Bank
check_choice s = elim (is_safe s) [
  | none ↦ none
  | some (safe, checked) ↦ some (record checked { flag = safe })
]
