-- ===== src/Banker/State.antt =====
-- The global variables of banker.c. An `int` is its pattern, a number below 2 ^ 32; an array is a
-- function of its index, which the code reads below `progress_num` and `resource_num`.
use cpp_example_code.Base.{ℕ, ◌+◌, ◌-◌, ◌%◌, ◌^◌, Bool, List}
use cpp_example_code.Base.Tests.{ltb}

abbrev pub Row : Type 0
Row = ℕ → ℕ

abbrev pub Matrix : Type 0
Matrix = ℕ → Row

-- `safe` holds the processes that `is_safe` has written there since it was called, in order.
pub record Bank : Type 0 where
  pub progress_num : ℕ
  pub resource_num : ℕ
  pub id : ℕ
  pub available : Row
  pub max : Matrix
  pub need : Matrix
  pub allocate : Matrix
  pub request : Row
  pub work : Row
  pub finish : ℕ → Bool
  pub work_allocation : Matrix
  pub flag : Bool
  pub safe : List ℕ

abbrev pub int_mod : ℕ
int_mod = 2 ^ 32

-- `a + b`, `a - b` and `a > b` on ints
abbrev pub add : ℕ → ℕ → ℕ
add a b = (a + b) % int_mod

abbrev pub sub : ℕ → ℕ → ℕ
sub a b = (a + int_mod - b) % int_mod

abbrev pub gt : ℕ → ℕ → Bool
gt a b = ltb ((b + 2 ^ 31) % int_mod) ((a + 2 ^ 31) % int_mod)
