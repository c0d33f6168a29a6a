-- ===== src/LinkedHashtbl/Slots.antt =====
-- Chains of addresses beside the chains of entries that they stand for, and how often an address
-- is in the bucket array.
use cpp_example_code.Base.{
  ℕ, zero, suc, ◌+◌, ◌≤◌, ◌<◌, ◌≡◌, refl, sym, ap, ◌∙◌, inl, inr, Bool, true, false, Option, none,
  some, List, [], ◌∷◌, ◌++◌, flatten, map, arith,
}
use mathlib.Core.Option.{some-injective}
use cpp_example_code.Base.Tests.{◌==◌, Bool-cases}
use cpp_example_code.Base.Lists.{length, get_or, set}
use cpp_example_code.Base.Loops.{assign}
use cpp_example_code.Hashtbl.State.{Ptr, Entry, Chain}
use cpp_example_code.Hashtbl.Chain.{find_first, unlink_first, assign_first}
pub use cpp_example_code.Base.Occurs.{occurs-append}
use cpp_example_code.LinkedHashtbl.State.{Addr}
use cpp_example_code.LinkedHashtbl.Ring.{occurs, erase}
use cpp_example_code.LinkedHashtbl.Ops.{find_node, unlink_node}

abbrev pub Slots : Type 0
Slots = List (List Addr)

-- the entry at an address, if there is one
abbrev pub at_entry : (Addr → Entry) → Option Addr → Option Entry
at_entry e none = none
at_entry e (some a) = some (e a)

-- the chains of entries behind an array of addresses
abbrev pub entry_slots : (Addr → Entry) → Slots → List Chain
entry_slots e t = map (map e) t

pub get_or-entry_slots :
    (e : Addr → Entry) (t : Slots) (i : ℕ) → get_or (entry_slots e t) i [] ≡ map e (get_or t i [])
get_or-entry_slots e [] i = refl
get_or-entry_slots e (c ∷ t) zero = refl
get_or-entry_slots e (c ∷ t) (suc i) = get_or-entry_slots e t i

pub entry_slots-set :
    (e : Addr → Entry) (t : Slots) (i : ℕ) (c : List Addr)
    → entry_slots e (set t i c) ≡ set (entry_slots e t) i (map e c)
entry_slots-set e [] i c = refl
entry_slots-set e (d ∷ t) zero c = refl
entry_slots-set e (d ∷ t) (suc i) c = ap (λ r. map e d ∷ r) (entry_slots-set e t i c)

pub length-entry_slots : (e : Addr → Entry) (t : Slots) → length (entry_slots e t) ≡ length t
length-entry_slots e [] = refl
length-entry_slots e (c ∷ t) = ap suc (length-entry_slots e t)

map-append : (e : Addr → Entry) (c d : List Addr) → map e (c ++ d) ≡ map e c ++ map e d
map-append e [] d = refl
map-append e (a ∷ c) d = ap (λ r. e a ∷ r) (map-append e c d)

pub flatten-entry_slots :
    (e : Addr → Entry) (t : Slots) → flatten (entry_slots e t) ≡ map e (flatten t)
unfolding flatten
flatten-entry_slots e [] = refl
flatten-entry_slots e (c ∷ t) =
    ap (λ r. map e c ++ r) (flatten-entry_slots e t) ∙ sym (map-append e c (flatten t))

pub length-map : (e : Addr → Entry) (c : List Addr) → length (map e c) ≡ length c
length-map e [] = refl
length-map e (a ∷ c) = ap suc (length-map e c)

pub find_first-map :
    (e : Addr → Entry) (test : Entry → Bool) (c : List Addr)
    → find_first test (map e c) ≡ at_entry e (find_node (λ a. test (e a)) c)
unfolding find_first find_node
find_first-map e test [] = refl
find_first-map e test (a ∷ c) = elim (Bool-cases (test (e a))) [
  | inl h ↦ rw h refl
  | inr h ↦ rw h (find_first-map e test c)
]

pub unlink_first-map :
    (e : Addr → Entry) (test : Entry → Bool) (c : List Addr)
    → map e (unlink_node (λ a. test (e a)) c) ≡ unlink_first test (map e c)
unfolding unlink_first unlink_node
unlink_first-map e test [] = refl
unlink_first-map e test (a ∷ c) = elim (Bool-cases (test (e a))) [
  | inl h ↦ rw h refl
  | inr h ↦ rw h (ap (λ r. e a ∷ r) (unlink_first-map e test c))
]

-- What is found is in the chain, and unlinking takes exactly it out.
pub find_node-occurs :
    (test : Addr → Bool) (c : List Addr) (a : Addr)
    → occurs a c ≤ 1
    → find_node test c ≡ some a
    → (0 < occurs a c) × (unlink_node test c ≡ erase a c)
unfolding find_node unlink_node
find_node-occurs test [] a once h = cc
find_node-occurs test (x ∷ c) a once h = elim (Bool-cases (test x)) [
  | inl here ↦
      let same : x ≡ a = some-injective x a (rw here at h) in
      let e : (a == x) ≡ true = ground arith in rw (here, e) (omega arith, refl)
  | inr other ↦
      let (inside, out) = find_node-occurs test c a (omega arith) (rw other at h) in
      let e : (a == x) ≡ false = ground arith in rw (other, e) (omega arith, ap (λ r. x ∷ r) out)
]

-- Writing an entry whose address is elsewhere changes no chain.
pub map-assign_out :
    (e : Addr → Entry) (a : Addr) (x : Entry) (c : List Addr)
    → occurs a c ≡ 0
    → map (assign e a x) c ≡ map e c
map-assign_out e a x [] h = refl
map-assign_out e a x (b ∷ c) h =
    let other : (b == a) ≡ false = ground arith in
    let rest = map-assign_out e a x c (omega arith) in rw (other, rest) refl

pub occurs-slot-le :
    (a : Addr) (t : Slots) (i : ℕ) → occurs a (get_or t i []) ≤ occurs a (flatten t)
unfolding flatten
occurs-slot-le a [] i = omega arith
occurs-slot-le a (c ∷ t) zero = omega (arith, occurs-append a c (flatten t))
occurs-slot-le a (c ∷ t) (suc i) =
    omega (arith, occurs-append a c (flatten t), occurs-slot-le a t i)

-- Replacing one slot changes how often an address is there by the difference of the chains.
pub occurs-flatten-set :
    (a : Addr) (t : Slots) (i : ℕ) (c : List Addr)
    → i < length t
    → occurs a (flatten (set t i c)) + occurs a (get_or t i []) ≡ occurs a (flatten t) + occurs a c
unfolding flatten
occurs-flatten-set a [] i c h = absurd (omega arith)
occurs-flatten-set a (d ∷ t) zero c h =
    omega (arith, occurs-append a c (flatten t), occurs-append a d (flatten t))
occurs-flatten-set a (d ∷ t) (suc i) c h = omega (
  arith,
  occurs-flatten-set a t i c (omega arith),
  occurs-append a d (flatten (set t i c)),
  occurs-append a d (flatten t),
)

pub entry_slots-assign_out :
    (e : Addr → Entry) (a : Addr) (x : Entry) (t : Slots)
    → occurs a (flatten t) ≡ 0
    → entry_slots (assign e a x) t ≡ entry_slots e t
unfolding flatten
entry_slots-assign_out e a x [] h = refl
entry_slots-assign_out e a x (c ∷ t) h =
    let both = occurs-append a c (flatten t) in
    let first = map-assign_out e a x c (omega arith) in
    let rest = entry_slots-assign_out e a x t (omega arith) in rw (first, rest) refl

-- Writing the value of the entry that a walk finds is the write along the chain of entries.
pub map-assign_first :
    (e : Addr → Entry) (test : Entry → Bool) (v : Ptr) (a : Addr) (c : List Addr)
    → occurs a c ≤ 1
    → find_node (λ b. test (e b)) c ≡ some a
    → map (assign e a (record (e a) { val = v })) c ≡ assign_first test v (map e c)
unfolding find_node assign_first
map-assign_first e test v a [] once h = cc
map-assign_first e test v a (x ∷ c) once h = elim (Bool-cases (test (e x))) [
  | inl here ↦
      let same : x ≡ a = some-injective x a (rw here at h) in
      let eq : (x == a) ≡ true = ground arith in
      let rest = map-assign_out e a (record (e a) { val = v }) c (ground arith) in
      rw (here, eq, rest) (ap (λ b. record (e b) { val = v } ∷ map e c) (sym same))
  | inr other ↦
      let found : find_node (λ b. test (e b)) c ≡ some a = rw other at h in
      let inside = (find_node-occurs (λ b. test (e b)) c a (omega arith) found).0 in
      let eq : (x == a) ≡ false = ground arith in
      rw (other, eq) (ap (λ r. e x ∷ r) (map-assign_first e test v a c (omega arith) found))
]

pub entry_slots-assign :
    (e : Addr → Entry) (a : Addr) (x : Entry) (t : Slots) (i : ℕ)
    → occurs a (flatten t) ≤ 1
    → 0 < occurs a (get_or t i [])
    → entry_slots (assign e a x) t ≡ set (entry_slots e t) i (map (assign e a x) (get_or t i []))
unfolding flatten
entry_slots-assign e a x [] i once h = absurd (omega arith)
entry_slots-assign e a x (c ∷ t) zero once h =
    ap (λ r. map (assign e a x) c ∷ r)
      (entry_slots-assign_out e a x t (omega (arith, occurs-append a c (flatten t))))
entry_slots-assign e a x (c ∷ t) (suc i) once h =
    let both = occurs-append a c (flatten t) in
    let below = occurs-slot-le a t i in
    let first = map-assign_out e a x c (omega arith) in
    let rest = entry_slots-assign e a x t i (omega arith) h in rw (first, rest) refl
