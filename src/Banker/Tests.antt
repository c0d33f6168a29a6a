-- ===== src/Banker/Tests.antt =====
-- Runs of the banker, and its theorems at concrete banks.
use cpp_example_code.Base.{
  ℕ, ◌≡◌, ◌<◌, refl, Bool, true, false, Option, none, some, List, [], ◌∷◌, arith,
}
use cpp_example_code.Base.Lists.{get_or}
use cpp_example_code.Base.Int.{pos, negsuc}
use cpp_example_code.Base.Loops.{for_each}
use cpp_example_code.Banker.State.{Row, Matrix, Bank, int_mod}
use cpp_example_code.Banker.Ops.{
  lacking, fits, finish_process, scan_step, scan, begin_check, all_finished, is_safe, read_id,
  request_choice,
}
use cpp_example_code.Banker.Sequence.{Checked, is_safe-Checked}
use cpp_example_code.Banker.Init.{read_system, init_system, IsBalanced, init_system-IsBalanced}
use cpp_example_code.Banker.Request.{Requested, request_choice-Requested}

abbrev table : List (List ℕ) → Matrix
table rows i j = get_or (get_or rows i []) j 0

-- the textbook's five processes and three resources
abbrev textbook : Bank
textbook = record {
  progress_num = 5;
  resource_num = 3;
  id = 0;
  available = λ j. get_or (3 ∷ 3 ∷ 2 ∷ []) j 0;
  max = table (
      (7 ∷ 5 ∷ 3 ∷ [])
      ∷ (3 ∷ 2 ∷ 2 ∷ [])
      ∷ (9 ∷ 0 ∷ 2 ∷ [])
      ∷ (2 ∷ 2 ∷ 2 ∷ [])
      ∷ (4 ∷ 3 ∷ 3 ∷ [])
      ∷ []);
  need = table (
      (7 ∷ 4 ∷ 3 ∷ [])
      ∷ (1 ∷ 2 ∷ 2 ∷ [])
      ∷ (6 ∷ 0 ∷ 0 ∷ [])
      ∷ (0 ∷ 1 ∷ 1 ∷ [])
      ∷ (4 ∷ 3 ∷ 1 ∷ [])
      ∷ []);
  allocate = table (
      (0 ∷ 1 ∷ 0 ∷ [])
      ∷ (2 ∷ 0 ∷ 0 ∷ [])
      ∷ (3 ∷ 0 ∷ 2 ∷ [])
      ∷ (2 ∷ 1 ∷ 1 ∷ [])
      ∷ (0 ∷ 0 ∷ 2 ∷ [])
      ∷ []);
  request = λ _. 0;
  work = λ _. 0;
  finish = λ _. false;
  work_allocation = λ _ _. 0;
  flag = false;
  safe = [];
}

abbrev answer_and_order : Option (Bool × Bank) → Bool × List ℕ
answer_and_order none = (false, [])
answer_and_order (some (b, s)) = (b, s.safe)

textbook_safe : answer_and_order (is_safe textbook) ≡ (true, 1 ∷ 3 ∷ 4 ∷ 0 ∷ 2 ∷ [])
unfolding is_safe scan scan_step finish_process fits lacking begin_check all_finished for_each
textbook_safe = refl

-- Three processes that can finish in the order 2, 1, 0 only: the restart comes once, behind
-- process 2, and the check ends before process 0 has its turn again.
abbrev backwards : Bank
backwards = record textbook {
  progress_num = 3;
  resource_num = 1;
  available = λ _. 1;
  need = table ((3 ∷ []) ∷ (2 ∷ []) ∷ (1 ∷ []) ∷ []);
  allocate = table ((1 ∷ []) ∷ (1 ∷ []) ∷ (1 ∷ []) ∷ []);
}

backwards_refused : answer_and_order (is_safe backwards) ≡ (false, 2 ∷ 1 ∷ [])
unfolding is_safe scan scan_step finish_process fits lacking begin_check all_finished for_each
backwards_refused = refl

is_safe-Checked_example : Checked textbook (is_safe textbook)
is_safe-Checked_example = is_safe-Checked textbook

abbrev plenty : Bank
plenty = record textbook {
  progress_num = 2;
  available = λ _. 5;
  max = λ _ _. 4;
  need = λ _ _. 3;
  allocate = λ _ _. 1;
}

abbrev two_each : Row
two_each _ = 2

chosen : read_id 2 (negsuc 0 ∷ pos 7 ∷ pos 1 ∷ []) ≡ some 1
unfolding read_id
chosen = refl

request_choice-Requested_example :
    Requested plenty 1 two_each (request_choice (negsuc 0 ∷ pos 7 ∷ pos 1 ∷ []) two_each plenty)
request_choice-Requested_example =
    request_choice-Requested plenty 1 two_each (negsuc 0 ∷ pos 7 ∷ pos 1 ∷ [])
      (record {
        available = λ j. omega arith;
        need = λ i j. omega arith;
        allocate = λ i j. omega arith;
      })
      (λ j. omega arith) chosen

-- two processes that may claim four of seven, and hold nothing yet
nothing_held :
    (i j : ℕ) → (read_system 2 3 (λ _. 7) (λ _ _. 4) none textbook).allocate i j < int_mod
unfolding read_system
nothing_held i j = omega arith

init_system-IsBalanced_test :
    IsBalanced 2 3 (λ _. 7) (λ _ _. 4) (init_system 2 3 (λ _. 7) (λ _ _. 4) none textbook)
init_system-IsBalanced_test =
    init_system-IsBalanced 2 3 (λ _. 7) (λ _ _. 4) none textbook (λ j. omega arith)
      (λ i j. omega arith) nothing_held
