-- ===== src/Base/Loops.antt =====
-- Counting loops and writes to arrays.
use Prim.Native.Nat.{ℕ, zero, suc}
use mathlib.Core.Path.{◌≡◌, refl}
use mathlib.Core.Bool.{false}
use cpp_example_code.Base.Tests.{◌==◌, if◌then◌else◌, ==_refl}

-- `for (i = 0; i < n; i++)`
unfoldable pub for_each {ℓ} : {S : Type ℓ} → ℕ → (ℕ → S → S) → S → S
for_each zero body s = s
for_each (suc n) body s = body n (for_each n body s)

-- `a[i] = v`
abbrev pub assign {ℓ} : {A : Type ℓ} → (ℕ → A) → ℕ → A → ℕ → A
assign a i v j = if j == i then v else a j

pub assign_self {ℓ} : {A : Type ℓ} (a : ℕ → A) (i : ℕ) (v : A) → assign a i v i ≡ v
assign_self a i v = rw (==_refl i) refl

pub assign_other {ℓ} :
    {A : Type ℓ} (a : ℕ → A) (i j : ℕ) (v : A) → (j == i) ≡ false → assign a i v j ≡ a j
assign_other a i j v e = rw e refl
