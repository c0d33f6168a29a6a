-- ===== src/LinkedHashtbl/Ring.antt =====
-- The doubly linked list: its two operations on the pointers, the list of nodes that it stands
-- for, and what the operations do to that list.
use cpp_example_code.Base.{
  ◌≤◌, ◌<◌, ◌≡◌, refl, sym, ap, ◌∙◌, ◌⊎◌, inl, inr, false, List, [], ◌∷◌, arith,
}
use cpp_example_code.Base.Tests.{◌==◌, Bool-cases, ==→eq}
use cpp_example_code.Base.Loops.{assign, assign_self, assign_other}
pub use cpp_example_code.Base.Occurs.{occurs, erase, occurs-erase}
use cpp_example_code.Base.Occurs.{ne_of_occurs}
use cpp_example_code.LinkedHashtbl.State.{Addr, head, Links}

-- `list_init(head)`
unfoldable pub list_init : Links → Links
list_init l = record { next = assign l.next head head; prev = assign l.prev head head }

-- `list_add_before(node, head)`, which puts `node` between `head` and `head->next`
unfoldable pub list_add_before : Links → Addr → Links
list_add_before l node =
    let after = l.next head in
    record {
      next = assign (assign l.next node after) head node;
      prev = assign (assign l.prev node head) after node;
    }

-- `list_remove(node)`
unfoldable pub list_remove : Links → Addr → Links
list_remove l node =
    let next = assign l.next (l.prev node) (l.next node) in
    record { next = next; prev = assign l.prev (next node) (l.prev node) }

-- what `free` makes of a node's links
abbrev pub given_back : Links → Links → Addr → Links
given_back left l node = record {
  next = assign l.next node (left.next node);
  prev = assign l.prev node (left.prev node);
}

-- From `a` the pointers lead through `xs` to `b`, and back.
abbrev pub Segment : Links → Addr → List Addr → Addr → Type 0
Segment l a [] b = (l.next a ≡ b) × (l.prev b ≡ a)
Segment l a (x ∷ xs) b = (l.next a ≡ x) × (l.prev x ≡ a) × Segment l x xs b

-- The list of all entries is a ring through its head, and no node is on it twice.
pub record IsRing (l : Links) (nodes : List Addr) : Type 0 where
  pub ring : Segment l head nodes head
  pub once : (a : Addr) → occurs a nodes ≤ 1
  pub headless : occurs head nodes ≡ 0

-- Pointers of other nodes do not matter.
Segment-frame :
    (l l' : Links) (a : Addr) (xs : List Addr) (b : Addr)
    → l'.next a ≡ l.next a
    → ((c : Addr) → 0 < occurs c xs → l'.next c ≡ l.next c)
    → ((c : Addr) → 0 < occurs c xs → l'.prev c ≡ l.prev c)
    → l'.prev b ≡ l.prev b
    → Segment l a xs b
    → Segment l' a xs b
Segment-frame l l' a [] b na n p pb (s, t) = (na ∙ s, pb ∙ t)
Segment-frame l l' a (x ∷ xs) b na n p pb (s, t, rest) = (
  na ∙ s,
  p x (ground arith) ∙ t,
  Segment-frame l l' x xs b (n x (ground arith)) (λ c h. n c (omega arith))
      (λ c h. p c (omega arith)) pb rest,
)

-- A node that is not on the list may be freed.
pub given_back-IsRing :
    (left l : Links) (node : Addr) (nodes : List Addr)
    → IsRing l nodes
    → occurs node nodes ≡ 0
    → (node == head) ≡ false
    → IsRing (given_back left l node) nodes
given_back-IsRing left l node nodes r out other = record {
  ring =
      Segment-frame l (given_back left l node) head nodes head
        (assign_other l.next node head (left.next node) (ground arith))
        (λ c h. assign_other l.next node c (left.next node) (ground arith))
        (λ c h. assign_other l.prev node c (left.prev node) (ground arith))
        (assign_other l.prev node head (left.prev node) (ground arith)) r.ring;
  once = r.once;
  headless = r.headless;
}

pub list_init-IsRing : (l : Links) → IsRing (list_init l) []
unfolding list_init
list_init-IsRing l = record {
  ring = (assign_self l.next head head, assign_self l.prev head head);
  once = λ a. omega arith;
  headless = refl;
}

-- the pointers after a node has come between the head and `after`
abbrev linked_in : Links → Addr → Addr → Links
linked_in l node after = record {
  next = assign (assign l.next node after) head node;
  prev = assign (assign l.prev node head) after node;
}

linked_in-Segment :
    (l : Links) (node after : Addr) (nodes : List Addr)
    → 0 < node
    → l.next head ≡ after
    → Segment l head nodes head
    → ((a : Addr) → occurs a nodes ≤ 1)
    → occurs head nodes ≡ 0
    → occurs node nodes ≡ 0
    → Segment (linked_in l node after) head (node ∷ nodes) head
linked_in-Segment l node after [] pos e (s, t) once headless new = ground arith
linked_in-Segment l node after (x ∷ xs) pos e (s, t, rest) once headless new = (
  ground arith,
  ground arith,
  (
    ground arith,
    ground arith,
    Segment-frame l (linked_in l node after) x xs head (ground arith)
        (λ c h. ground (arith, once c)) (λ c h. ground (arith, once c)) (ground arith) rest,
  ),
)

-- Adding a node that is not on the list puts it in front.
pub list_add_before-IsRing :
    (l : Links) (node : Addr) (nodes : List Addr)
    → IsRing l nodes
    → occurs node nodes ≡ 0
    → 0 < node
    → IsRing (list_add_before l node) (node ∷ nodes)
unfolding list_add_before
list_add_before-IsRing l node nodes r new pos = record {
  ring = linked_in-Segment l node (l.next head) nodes pos refl r.ring r.once r.headless new;
  once = λ a. ground (arith, r.once a, new);
  headless = ground (arith, r.headless);
}

Segment-before :
    (l : Links) (a : Addr) (xs : List Addr) (b node : Addr)
    → Segment l a xs b
    → 0 < occurs node xs
    → (l.prev node ≡ a) ⊎ (0 < occurs (l.prev node) xs)
Segment-before l a [] b node g h = absurd (omega arith)
Segment-before l a (x ∷ xs) b node (s, t, rest) h = elim (Bool-cases (node == x)) [
  | inl e ↦ inl (ap l.prev (==→eq node x e) ∙ t)
  | inr e ↦ inr (elim (Segment-before l x xs b node rest (ground arith)) [
    | inl q ↦ ground arith
    | inr q ↦ omega arith
  ])
]

Segment-after :
    (l : Links) (a : Addr) (xs : List Addr) (b node : Addr)
    → Segment l a xs b
    → 0 < occurs node xs
    → (l.next node ≡ b) ⊎ (0 < occurs (l.next node) xs)
Segment-after l a [] b node g h = absurd (omega arith)
Segment-after l a (x ∷ xs) b node (s, t, rest) h = elim (Bool-cases (node == x)) [
  | inl e ↦ first xs rest (==→eq node x e)
  | inr e ↦ elim (Segment-after l x xs b node rest (ground arith)) [
    | inl q ↦ inl q
    | inr q ↦ inr (omega arith)
  ]
]
  where
    first :
        (xs : List Addr)
        → Segment l x xs b
        → node ≡ x
        → (l.next node ≡ b) ⊎ (0 < occurs (l.next node) (x ∷ xs))
    first [] (s, t) e = inl (ap l.next e ∙ s)
    first (y ∷ ys) (s, t, rest) e =
        let next : l.next node ≡ y = ap l.next e ∙ s in inr (ground arith)

Segment-apart :
    (l : Links) (a : Addr) (xs : List Addr) (b node : Addr)
    → Segment l a xs b
    → ((c : Addr) → occurs c xs ≤ 1)
    → occurs a xs ≡ 0
    → 0 < occurs node xs
    → (l.prev node == node) ≡ false
Segment-apart l a [] b node g once out h = absurd (omega arith)
Segment-apart l a (x ∷ xs) b node (s, t, rest) once out h = elim (Bool-cases (node == x)) [
  | inl e ↦ let at : l.prev node ≡ a = ap l.prev (==→eq node x e) ∙ t in ground arith
  | inr e ↦
      Segment-apart l x xs b node rest (λ c. omega (arith, once c)) (ground (arith, once x))
        (ground arith)
]

-- the pointers after the nodes between `before` and `after` have been left out
abbrev linked_out : Links → Addr → Addr → Links
linked_out l before after = record {
  next = assign l.next before after;
  prev = assign l.prev after before;
}

linked_out-Segment :
    (l : Links) (a : Addr) (xs : List Addr) (b node before after : Addr)
    → l.prev node ≡ before
    → l.next node ≡ after
    → Segment l a xs b
    → ((c : Addr) → occurs c xs ≤ 1)
    → occurs a xs ≡ 0
    → occurs b xs ≡ 0
    → 0 < occurs node xs
    → Segment (linked_out l before after) a (erase node xs) b
linked_out-Segment l a [] b node before after p n g once out out' h = absurd (omega arith)
linked_out-Segment l a (x ∷ xs) b node before after p n (s, t, rest) once out out' h =
    elim (Bool-cases (node == x)) [
      | inl e ↦
          let same = ==→eq node x e in
          let at : before ≡ a = sym p ∙ ap l.prev same ∙ t in
          let to : after ≡ l.next x = sym n ∙ ap l.next same in
          rw e (here xs rest (λ c. once c) out out' at to)
      | inr e ↦
          let p' : (before ≡ x) ⊎ (0 < occurs before xs) =
            rw p at (Segment-before l x xs b node rest (ground arith)) in
          let n' : (after ≡ b) ⊎ (0 < occurs after xs) =
            rw n at (Segment-after l x xs b node rest (ground arith)) in
          let apart : (a == before) ≡ false = elim p' [
            | inl q ↦ ground arith
            | inr q ↦ ne_of_occurs a before xs (omega arith) q
          ] in
          let apart' : (x == after) ≡ false = elim n' [
            | inl q ↦ ground arith
            | inr q ↦ ne_of_occurs x after xs (ground (arith, once x)) q
          ] in
          rw e (
            assign_other l.next before a after apart ∙ s,
            assign_other l.prev after x before apart' ∙ t,
            linked_out-Segment l x xs b node before after p n rest (λ c. omega (arith, once c))
                (ground (arith, once x)) (omega arith) (ground arith),
          )
    ]
  where
    here :
        (xs : List Addr)
        → Segment l x xs b
        → ((c : Addr) → occurs c (x ∷ xs) ≤ 1)
        → occurs a (x ∷ xs) ≡ 0
        → occurs b (x ∷ xs) ≡ 0
        → before ≡ a
        → after ≡ l.next x
        → Segment (linked_out l before after) a xs b
    here [] (s, t) once out out' e e' = ground arith
    here (y ∷ ys) (s, t, rest) once out out' e e' = (
      ground arith,
      ground arith,
      Segment-frame l (linked_out l before after) y ys b (ground arith)
          (λ c h. ground (arith, once c)) (λ c h. ground (arith, once c)) (ground arith) rest,
    )

-- Removing a node that is on the list takes it out and keeps the order of the others.
pub list_remove-IsRing :
    (l : Links) (node : Addr) (nodes : List Addr)
    → IsRing l nodes
    → 0 < occurs node nodes
    → IsRing (list_remove l node) (erase node nodes)
unfolding list_remove
list_remove-IsRing l node nodes r h =
    let apart = Segment-apart l head nodes head node r.ring r.once r.headless h in
    let other : (node == l.prev node) ≡ false = ground arith in
    let next : assign l.next (l.prev node) (l.next node) node ≡ l.next node =
      assign_other l.next (l.prev node) node (l.next node) other in
    record {
      ring = rw next (
          linked_out-Segment l head nodes head node (l.prev node) (l.next node) refl refl r.ring
            r.once r.headless r.headless h);
      once = λ a. omega (arith, occurs-erase a node nodes h, r.once a);
      headless = omega (arith, occurs-erase head node nodes h, r.headless);
    }
