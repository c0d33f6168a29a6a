-- ===== src/Banker/Sequence.antt =====
-- Safe sequences, and `is_safe` against them.
use cpp_example_code.Base.{
  ℕ, zero, suc, ◌+◌, ◌-◌, ◌*◌, ◌≤◌, ◌<◌, ◌≡◌, refl, sym, ap, ◌∙◌, inl, inr, Bool, true, false, ◌||◌,
  Option, some, List, [], ◌∷◌, ◌++◌, arith,
}
use cpp_example_code.Base.Tests.{◌==◌, if◌then◌else◌, Bool-cases, ==→eq}
use cpp_example_code.Banker.State.{Row, Matrix, Bank, add, gt}
use cpp_example_code.Banker.Loops.{update_cells_lem}
use cpp_example_code.Banker.Ops.{lacking, fits, finish_process, begin_check, all_finished, is_safe}
use cpp_example_code.Banker.Scan.{rounds, scan-Ends}

abbrev pub elem : ℕ → List ℕ → Bool
elem i [] = false
elem i (k ∷ ks) = (i == k) || elem i ks

-- The processes of `order`, each once, can run to their ends one after the other from what is
-- available, and `w` is what is free then: each one's need is met when its turn comes, and it gives
-- back what it holds.
pub data Reaches (s : Bank) : List ℕ → Row → Type 0 where
  start : {w : Row} → ((j : ℕ) → j < s.resource_num → w j ≡ s.available j) → Reaches s [] w
  runs :
      {order : List ℕ} {w w' : Row} (i : ℕ)
      → Reaches s order w
      → i < s.progress_num
      → elem i order ≡ false
      → ((j : ℕ) → j < s.resource_num → gt (s.need i j) (w j) ≡ false)
      → ((j : ℕ) → j < s.resource_num → w' j ≡ add (w j) (s.allocate i j))
      → Reaches s (order ++ (i ∷ [])) w'

-- A safe sequence: an order in which every process runs to its end.
pub record SafeSequence (s : Bank) (order : List ℕ) : Type 0 where
  pub work : Row
  pub reached : Reaches s order work
  pub everyone : (i : ℕ) → i < s.progress_num → elem i order ≡ true

-- what a check must not change
abbrev pub resources : Bank → ℕ × ℕ × ℕ × Row × Matrix × Matrix × Matrix × Row
resources s =
    (s.progress_num, s.resource_num, s.id, s.available, s.max, s.need, s.allocate, s.request)

-- During the loop: the processes marked as finished are those of `safe`, in an order that works.
pub record Checking (s₀ s : Bank) : Type 0 where
  pub same : resources s ≡ resources s₀
  pub reached : Reaches s₀ s.safe s.work
  pub marks : (i : ℕ) → i < s₀.progress_num → s.finish i ≡ elem i s.safe

or_if : (a b c : Bool) → (a || (if b then true else c)) ≡ (if b then true else a || c)
or_if true true c = refl
or_if true false c = refl
or_if false b c = refl

elem-append :
    (i k : ℕ) (ks : List ℕ) → elem i (ks ++ (k ∷ [])) ≡ (if i == k then true else elem i ks)
elem-append i k [] = elim (Bool-cases (i == k)) [ inl e ↦ rw e refl | inr e ↦ rw e refl ]
elem-append i k (j ∷ ks) = rw (elem-append i k ks) (or_if (i == j) (i == k) (elem i ks))

lacking_none :
    (n j k : ℕ) (need work : Row)
    → lacking n j need work ≡ j + n
    → j ≤ k
    → k < j + n
    → gt (need k) (work k) ≡ false
unfolding lacking
lacking_none zero j k need work e low high = absurd (omega arith)
lacking_none (suc n) j k need work e low high = elim (Bool-cases (gt (need j) (work j))) [
  | inl short ↦ absurd (let stops : j ≡ j + suc n = rw short at e in omega arith)
  | inr enough ↦
      let on : lacking n (j + 1) need work ≡ j + suc n = rw enough at e in
      elim (Bool-cases (k == j)) [
        | inl here ↦ rw (==→eq k j here) enough
        | inr later ↦
            lacking_none n (j + 1) k need work (on ∙ omega arith) (ground arith) (omega arith)
      ]
]

fits_lem :
    (s : Bank) (i : ℕ)
    → fits s i ≡ true
    → (j : ℕ) → j < s.resource_num
    → gt (s.need i j) (s.work j) ≡ false
unfolding fits
fits_lem s i h j inside =
    lacking_none s.resource_num 0 j (s.need i) s.work (==→eq _ _ h ∙ omega arith) (omega arith)
      (omega arith)

finish_process-Checking :
    (s₀ : Bank) (i : ℕ) (s : Bank)
    → i < s.progress_num
    → s.finish i ≡ false
    → fits s i ≡ true
    → Checking s₀ s
    → Checking s₀ (finish_process s i)
unfolding finish_process
finish_process-Checking s₀ i s inside running can c =
    let count : s.progress_num ≡ s₀.progress_num = ap (λ t. t.0) c.same in
    let width : s.resource_num ≡ s₀.resource_num = ap (λ t. t.1) c.same in
    let needs : s.need ≡ s₀.need = ap (λ t. t.5) c.same in
    let holds : s.allocate ≡ s₀.allocate = ap (λ t. t.6) c.same in
    let inside' : i < s₀.progress_num = rw count at inside in
    record {
      same = c.same;
      reached =
          Reaches.runs i c.reached inside' (sym (c.marks i inside') ∙ running)
            (λ j h. rw needs at (fits_lem s i can j (rw width h)))
            (λ j h.
              update_cells_lem s.resource_num (λ j w. add w (s.allocate i j)) s.work j (rw width h)
              ∙ ap (λ (a : Matrix). add (s.work j) (a i j)) holds);
      marks = λ k h. rw (elem-append k i s.safe, c.marks k h) refl;
    }

begin_check-Checking : (s : Bank) → Checking s (begin_check s)
unfolding begin_check
begin_check-Checking s = record {
  same = refl;
  reached =
      Reaches.start (λ j h. update_cells_lem s.resource_num (λ j _. s.available j) s.work j h);
  marks = λ i h. update_cells_lem s.progress_num (λ _ _. false) s.finish i h;
}

begin_check-progress_num : (s : Bank) → (begin_check s).progress_num ≡ s.progress_num
unfolding begin_check
begin_check-progress_num s = refl

all_finished-every :
    (n : ℕ) (finish : ℕ → Bool) → all_finished n finish ≡ true → (i : ℕ) → i < n → finish i ≡ true
unfolding all_finished
all_finished-every zero finish h i inside = absurd (omega arith)
all_finished-every (suc n) finish h i inside = elim (Bool-cases (all_finished n finish)) [
  | inl all ↦
      let last : finish n ≡ true = rw all at h in
      elim (Bool-cases (i == n)) [
        | inl here ↦ rw (==→eq i n here) last
        | inr earlier ↦ all_finished-every n finish all i (ground arith)
      ]
  | inr short ↦ (let wrong : false ≡ true = rw short at h in cc)
]

all_finished-some :
    (n : ℕ) (finish : ℕ → Bool)
    → all_finished n finish ≡ false
    → (i : ℕ) × (i < n) × (finish i ≡ false)
unfolding all_finished
all_finished-some zero finish h = cc
all_finished-some (suc n) finish h = elim (Bool-cases (all_finished n finish)) [
  | inl all ↦ (n, omega arith, rw all at h)
  | inr short ↦ let (i, inside, waits) = all_finished-some n finish short in (i, omega arith, waits)
]

rounds_begin : (s : Bank) → rounds 0 (begin_check s) < 2 * s.progress_num + 1
rounds_begin s =
    rw (begin_check-progress_num s)
      (elim (Bool-cases ((begin_check s).finish (s.progress_num - 1))) [
        | inl e ↦ rw e (omega arith)
        | inr e ↦ rw e (omega arith)
      ])

-- What `is_safe` promises: it returns, leaves the resources alone, answers TRUE only with a safe
-- sequence in `safe`, and answers FALSE only if a process is not in the sequence it found.
pub record Checked (s : Bank) (out : Option (Bool × Bank)) : Type 0 where
  pub answer : Bool
  pub after : Bank
  pub returns : out ≡ some (answer, after)
  pub same : resources after ≡ resources s
  pub reached : Reaches s after.safe after.work
  pub sound : answer ≡ true → SafeSequence s after.safe
  pub refused : answer ≡ false → (i : ℕ) × (i < s.progress_num) × (elem i after.safe ≡ false)

-- `is_safe` ends for every bank; it answers TRUE only if the processes in `safe`, in that order,
-- form a safe sequence, and FALSE only if some process is missing there.
pub is_safe-Checked : (s : Bank) → Checked s (is_safe s)
unfolding is_safe
is_safe-Checked s =
    let e =
      scan-Ends (Checking s) (finish_process-Checking s) (2 * s.progress_num + 1) 0 (begin_check s)
        (rounds_begin s) (begin_check-Checking s) in
    let count : e.after.progress_num ≡ s.progress_num = ap (λ t. t.0) e.holds.same in
    rw (e.ends, is_safe)
      (record {
        answer = all_finished e.after.progress_num e.after.finish;
        after = e.after;
        returns = refl;
        same = e.holds.same;
        reached = e.holds.reached;
        sound = λ yes. record {
          work = e.after.work;
          reached = e.holds.reached;
          everyone = λ i h.
              sym (e.holds.marks i h)
              ∙ all_finished-every e.after.progress_num e.after.finish yes i (rw count h);
        };
        refused = λ no.
            let (i, inside, waits) = all_finished-some e.after.progress_num e.after.finish no in
            let inside' : i < s.progress_num = rw count at inside in
            (i, inside', sym (e.holds.marks i inside') ∙ waits);
      })

abbrev pub claims : Bank → ℕ × ℕ × Row × Matrix × Matrix
claims s = (s.progress_num, s.resource_num, s.available, s.need, s.allocate)

-- Sequences depend on what is available, needed and held only.
pub Reaches-same :
    (s s' : Bank) (order : List ℕ) (w : Row)
    → claims s ≡ claims s'
    → Reaches s order w
    → Reaches s' order w
Reaches-same s s' _ _ e (Reaches.start f) =
    let width : s.resource_num ≡ s'.resource_num = ap (λ t. t.1) e in
    Reaches.start (λ j h. f j (rw width h) ∙ ap (λ t. t.2 j) e)
Reaches-same s s' _ _ e (Reaches.runs {order} {w} i r inside fresh enough back) =
    let count : s.progress_num ≡ s'.progress_num = ap (λ t. t.0) e in
    let width : s.resource_num ≡ s'.resource_num = ap (λ t. t.1) e in
    Reaches.runs i (Reaches-same s s' order w e r) (rw count at inside) fresh
      (λ j h. ap (λ t. gt (t.3 i j) (w j)) (sym e) ∙ enough j (rw width h))
      (λ j h. back j (rw width h) ∙ ap (λ t. add (w j) (t.4 i j)) e)

pub SafeSequence-same :
    (s s' : Bank) (order : List ℕ)
    → claims s ≡ claims s'
    → SafeSequence s order
    → SafeSequence s' order
SafeSequence-same s s' order e q =
    let count : s.progress_num ≡ s'.progress_num = ap (λ t. t.0) e in
    record {
      work = q.work;
      reached = Reaches-same s s' order q.work e q.reached;
      everyone = λ i h. q.everyone i (rw count h);
    }
