-- ===== src/LinkedHashtbl/Walk.antt =====
-- Loops over the list of all entries: `l_hashtbl_apply` and the iterator, in both directions.
use cpp_example_code.Base.{
  ℕ, zero, suc, ◌+◌, ◌<◌, ◌≡◌, refl, sym, ap, ◌∙◌, inl, inr, true, false, Option, some, List, [],
  ◌∷◌, ◌++◌, map, flatten, arith,
}
use cpp_example_code.Base.Tests.{◌==◌, if◌then◌else◌, Bool-cases}
use cpp_example_code.Base.Lists.{length, length-append}
use cpp_example_code.Base.Int.{ℤ}
use cpp_example_code.Hashtbl.State.{Ptr, Entry, inc, ulong_mod}
use cpp_example_code.Hashtbl.Visit.{fold_entries, binding}
use cpp_example_code.LinkedHashtbl.State.{Addr, head, Links, Linked}
use cpp_example_code.LinkedHashtbl.Ring.{occurs, Segment}
use cpp_example_code.LinkedHashtbl.Ops.{
  walk, forwards, l_apply_nodes, l_apply, LinkedIter, is_forward, l_iter_init, l_iter_next,
}
use cpp_example_code.LinkedHashtbl.Slots.{occurs-append, flatten-entry_slots, length-map}
use cpp_example_code.LinkedHashtbl.View.{Keeps}
use cpp_example_code.LinkedHashtbl.Order.{length_same}

pub Segment-walk :
    (l : Links) (a : Addr) (xs : List Addr) (fuel : ℕ)
    → Segment l a xs head
    → occurs head xs ≡ 0
    → length xs < fuel
    → walk fuel l.next (l.next a) ≡ some xs
unfolding walk
Segment-walk l a xs zero s proper enough = absurd (omega arith)
Segment-walk l a [] (suc fuel) (s, t) proper enough = rw (s, walk) refl
Segment-walk l a (x ∷ xs) (suc fuel) (s, t, rest) proper enough =
    let other : (x == head) ≡ false = ground arith in
    let next = Segment-walk l x xs fuel rest (omega arith) (omega arith) in
    rw (s, walk, other, next) (ap (λ t. some (t ∷ xs)) s)

abbrev pub reversed : List Addr → List Addr
reversed [] = []
reversed (x ∷ xs) = reversed xs ++ (x ∷ [])

abbrev pub flipped : Links → Links
flipped l = record { next = l.prev; prev = l.next }

Segment-snoc :
    (l : Links) (a : Addr) (xs : List Addr) (y b : Addr)
    → Segment l a xs y
    → l.next y ≡ b
    → l.prev b ≡ y
    → Segment l a (xs ++ (y ∷ [])) b
Segment-snoc l a [] y b (s, t) n p = (s, t, (n, p))
Segment-snoc l a (x ∷ xs) y b (s, t, rest) n p = (s, t, Segment-snoc l x xs y b rest n p)

Segment-reversed :
    (l : Links) (a : Addr) (xs : List Addr) (b : Addr)
    → Segment l a xs b
    → Segment (flipped l) b (reversed xs) a
Segment-reversed l a [] b (s, t) = (t, s)
Segment-reversed l a (x ∷ xs) b (s, t, rest) =
    Segment-snoc (flipped l) b (reversed xs) x a (Segment-reversed l x xs b rest) t s

occurs-reversed : (a : Addr) (xs : List Addr) → occurs a (reversed xs) ≡ occurs a xs
occurs-reversed a [] = refl
occurs-reversed a (x ∷ xs) =
    omega (arith, occurs-append a (reversed xs) (x ∷ []), occurs-reversed a xs)

length-reversed : (xs : List Addr) → length (reversed xs) ≡ length xs
length-reversed [] = refl
length-reversed (x ∷ xs) = omega (arith, length-append (reversed xs) (x ∷ []), length-reversed xs)

l_apply_nodes-fold {ℓ} :
    {S : Type ℓ} (entries : Addr → Entry) (fn : Ptr → Ptr → S → ℕ × S)
    → ((k v : Ptr) (s : S) → (fn k v s).0 ≡ 1)
    → (nodes : List Addr) (s : S) (n : ℕ) → n + length nodes < ulong_mod
    → l_apply_nodes entries fn nodes s n
      ≡ (fold_entries (λ k v s. (true, (fn k v s).1)) (map entries nodes) s, n + length nodes)
unfolding l_apply_nodes
l_apply_nodes-fold entries fn go [] s n small = ground arith
l_apply_nodes-fold entries fn go (a ∷ nodes) s n small =
    let step : inc n ≡ n + 1 = omega arith in
    let e = entries a in
    let rest = l_apply_nodes-fold entries fn go nodes (fn e.key e.val s).1 (n + 1) (omega arith) in
    rw (go e.key e.val s, step, rest) (ground arith)

module _ {D : Type 0} where
  -- There are as many entries as nodes.
  pub order-nentries :
      (h : Linked D) (order : List Addr) (f : Ptr → Option Ptr)
      → Keeps h order f
      → length order ≡ h.nentries
  order-nentries h order f keeps =
      sym (length_same (flatten h.table) order keeps.same)
      ∙ sym (length-map h.entries (flatten h.table))
      ∙ ap length (sym (flatten-entry_slots h.entries h.table))
      ∙ keeps.models.stores.entries

  -- A loop over the list meets the nodes in order, and comes to an end.
  pub forwards-order :
      (h : Linked D) (order : List Addr) (f : Ptr → Option Ptr)
      → Keeps h order f
      → forwards h ≡ some order
  forwards-order h order f keeps =
      Segment-walk h.links head order (h.nentries + 1) keeps.ring.ring keeps.ring.headless
        (omega (arith, order-nentries h order f keeps))

  -- With a function that always answers 1, `l_hashtbl_apply` ends, has called it on every entry once, in
  -- the list's order, and returns the number of entries.
  pub l_apply-fold {ℓ} :
      {S : Type ℓ} (fn : Ptr → Ptr → S → ℕ × S) (h : Linked D) (order : List Addr)
      (f : Ptr → Option Ptr) (s : S)
      → Keeps h order f
      → ((k v : Ptr) (s : S) → (fn k v s).0 ≡ 1)
      → l_apply h fn s
        ≡ some (fold_entries (λ k v s. (true, (fn k v s).1)) (map h.entries order) s, h.nentries)
  unfolding l_apply
  l_apply-fold fn h order f s keeps go =
      let counted = order-nentries h order f keeps in
      rw (forwards-order h order f keeps, l_apply)
        (ap some (
          l_apply_nodes-fold h.entries fn go order s 0 (omega (arith, keeps.models.fits))
          ∙ ground (arith, counted)))

  -- the loop `while (l_hashtbl_iter_next(&iter))`, as the keys and values that it sees
  unfoldable pub l_iterate : ℕ → Linked D → LinkedIter → List (Ptr × Ptr)
  l_iterate zero h it = []
  l_iterate (suc fuel) h it =
      let (more, it') = l_iter_next h it in
      let rest = l_iterate fuel h it' in if more == 0 then [] else (it'.key, it'.val) ∷ rest

  -- what the iterator sees of the entry at a node
  abbrev pub node_binding : Linked D → Addr → Ptr × Ptr
  node_binding h a = binding (h.entries a)

  iterate_from :
      (h : Linked D) (l : Links) (fuel : ℕ) (it : LinkedIter) (a : Addr) (xs : List Addr)
      → ((c : Addr)
          → (if is_forward it.direction then h.links.next c else h.links.prev c) ≡ l.next c)
      → it.end ≡ head
      → it.pos ≡ l.next a
      → Segment l a xs head
      → occurs head xs ≡ 0
      → length xs < fuel
      → l_iterate fuel h it ≡ map (node_binding h) xs
  unfolding l_iterate l_iter_next
  iterate_from h l zero it a xs steps ends at s proper enough = absurd (omega arith)
  iterate_from h l (suc fuel) it a [] steps ends at (s, t) proper enough =
      let stop : (it.pos == it.end) ≡ true = ground (arith, at, s, ends) in rw stop refl
  iterate_from h l (suc fuel) it a (x ∷ xs) steps ends at (s, t, rest) proper enough =
      let here : it.pos ≡ x = at ∙ s in
      let go : (it.pos == it.end) ≡ false = ground (arith, here, ends) in
      let next =
        iterate_from h l fuel
          (record it {
            pos = if is_forward it.direction then h.links.next it.pos else h.links.prev it.pos;
            key = (h.entries it.pos).key;
            val = (h.entries it.pos).val;
          })
          x xs steps ends (steps it.pos ∙ ap l.next here) rest (omega arith) (omega arith) in
      rw (go, next) (ap (λ t. node_binding h t ∷ map (node_binding h) xs) here)

  -- From `l_hashtbl_iter_init` on, the loop sees every entry exactly once and ends: in the list's order
  -- with a direction of 1 or more, and in the opposite order otherwise.
  pub l_iterate-l_iter_init :
      (h : Linked D) (order : List Addr) (f : Ptr → Option Ptr) (direction : ℤ)
      → Keeps h order f
      → l_iterate (h.nentries + 1) h (l_iter_init h direction)
        ≡ map (node_binding h) (if is_forward direction then order else reversed order)
  unfolding l_iter_init
  l_iterate-l_iter_init h order f direction keeps =
      let counted = order-nentries h order f keeps in
      elim (Bool-cases (is_forward direction)) [
        | inl e ↦
            iterate_from h h.links (h.nentries + 1) (l_iter_init h direction) head order
              (λ c. ap (λ t. if t then h.links.next c else h.links.prev c) e) refl
              (ap (λ t. if t then h.links.next head else h.links.prev head) e) keeps.ring.ring
              keeps.ring.headless (omega arith)
            ∙ ap (λ t. map (node_binding h) (if t then order else reversed order)) (sym e)
        | inr e ↦
            iterate_from h (flipped h.links) (h.nentries + 1) (l_iter_init h direction) head
              (reversed order) (λ c. ap (λ t. if t then h.links.next c else h.links.prev c) e) refl
              (ap (λ t. if t then h.links.next head else h.links.prev head) e)
              (Segment-reversed h.links head order head keeps.ring.ring)
              (occurs-reversed head order ∙ keeps.ring.headless)
              (omega (arith, length-reversed order))
            ∙ ap (λ t. map (node_binding h) (if t then order else reversed order)) (sym e)
      ]
