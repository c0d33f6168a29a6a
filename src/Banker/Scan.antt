-- ===== src/Banker/Scan.antt =====
-- The loop of `is_safe`: it ends, and keeps what each of its rounds keeps.
use cpp_example_code.Base.{
  ℕ, zero, suc, ◌+◌, ◌-◌, ◌≤◌, ◌<◌, ◌≡◌, refl, ◌∙◌, ◌⊎◌, inl, inr, true, false, Option, some, arith,
}
use cpp_example_code.Base.Tests.{◌==◌, if◌then◌else◌, Bool-cases, lt→ltb, le→ltb_false}
use native.Mathlib.Decide.{dec_lt}
use cpp_example_code.Base.Loops.{assign, assign_self, assign_other}
use cpp_example_code.Banker.State.{Bank}
use cpp_example_code.Banker.Ops.{fits, finish_process, scan_step, scan}

abbrev pub next_index : ℕ → ℕ → ℕ
next_index p i = if i + 1 == p then 0 else i + 1

-- A round skips a process that has finished or has to wait, or lets one finish.
pub scan_step-cases :
    (i : ℕ) (s : Bank)
    → (scan_step i s ≡ (i + 1, s))
      ⊎ ((s.finish i ≡ false)
          × (fits s i ≡ true)
          × (scan_step i s ≡ (next_index s.progress_num i, finish_process s i)))
unfolding scan_step
scan_step-cases i s = elim (Bool-cases (s.finish i)) [
  | inl done ↦ inl (rw done refl)
  | inr running ↦ elim (Bool-cases (fits s i)) [
    | inl can ↦ inr (running, can, rw (running, can) refl)
    | inr waits ↦ inl (rw (running, waits) refl)
  ]
]

pub finish_process-progress_num :
    (s : Bank) (i : ℕ) → (finish_process s i).progress_num ≡ s.progress_num
unfolding finish_process
finish_process-progress_num s i = refl

pub finish_process-finish :
    (s : Bank) (i j : ℕ) → (finish_process s i).finish j ≡ assign s.finish i true j
unfolding finish_process
finish_process-finish s i j = refl

-- The rounds that are left at most: a restart is left while the last process has not finished.
abbrev pub rounds : ℕ → Bank → ℕ
rounds i s = (if s.finish (s.progress_num - 1) then 0 else s.progress_num) + (s.progress_num - i)

finish_process-rounds :
    (i : ℕ) (s : Bank)
    → i < s.progress_num
    → s.finish i ≡ false
    → rounds (next_index s.progress_num i) (finish_process s i) < rounds i s
finish_process-rounds i s h running = elim (Bool-cases (i + 1 == s.progress_num)) [
  | inl last ↦
      let at_end : s.progress_num - 1 ≡ i = ground arith in
      let now : (finish_process s i).finish i ≡ true =
        finish_process-finish s i i ∙ assign_self s.finish i true in
      rw (finish_process-progress_num s i, last, at_end, now, running) (omega arith)
  | inr inner ↦
      let other : (s.progress_num - 1 == i) ≡ false = ground arith in
      let same : (finish_process s i).finish (s.progress_num - 1) ≡ s.finish (s.progress_num - 1) =
        finish_process-finish s i (s.progress_num - 1)
        ∙ assign_other s.finish i (s.progress_num - 1) true other in
      rw (finish_process-progress_num s i, inner, same) (omega arith)
]

scan_past : (fuel i : ℕ) (s : Bank) → s.progress_num ≤ i → scan (suc fuel) i s ≡ some s
unfolding scan
scan_past fuel i s h = rw (le→ltb_false i s.progress_num h, scan) refl

scan_inside :
    (fuel i : ℕ) (s : Bank)
    → i < s.progress_num
    → scan (suc fuel) i s ≡ scan fuel (scan_step i s).0 (scan_step i s).1
unfolding scan
scan_inside fuel i s h = rw (lt→ltb i s.progress_num h, scan) refl

-- The loop ended with a bank of which `P` holds.
pub record Ends {ℓ} (P : Bank → Type ℓ) (out : Option Bank) : Type ℓ where
  pub after : Bank
  pub ends : out ≡ some after
  pub holds : P after

pub scan-Ends {ℓ} :
    (P : Bank → Type ℓ)
    → ((i : ℕ) (s : Bank)
        → i < s.progress_num
        → s.finish i ≡ false
        → fits s i ≡ true
        → P s
        → P (finish_process s i))
    → (fuel i : ℕ) (s : Bank) → rounds i s < fuel
    → P s
    → Ends P (scan fuel i s)
scan-Ends P keeps zero i s enough holds = absurd (omega arith)
scan-Ends P keeps (suc fuel) i s enough holds = elim (dec_lt i s.progress_num) [
  | no past ↦
      rw (scan_past fuel i s (omega arith)) (record { after = s; ends = refl; holds = holds })
  | yes inside ↦ rw (scan_inside fuel i s inside) (elim (scan_step-cases i s) [
    | inl skip ↦ rw skip (scan-Ends P keeps fuel (i + 1) s (omega arith) holds)
    | inr (running, can, goes) ↦ rw goes (
        scan-Ends P keeps fuel (next_index s.progress_num i) (finish_process s i)
          (omega (arith, finish_process-rounds i s inside running))
          (keeps i s inside running can holds))
  ])
]
