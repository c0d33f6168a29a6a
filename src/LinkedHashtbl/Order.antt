-- ===== src/LinkedHashtbl/Order.antt =====
-- Lists of addresses with the same members: the entries behind them mean the same.
use cpp_example_code.Base.{
  ℕ, suc, ◌+◌, ◌≤◌, ◌<◌, ◌≡◌, refl, sym, ap, ◌∙◌, ◌⊎◌, inl, inr, Bool, true, false, Option, none,
  some, List, [], ◌∷◌, map, arith,
}
use cpp_example_code.Base.Tests.{◌==◌, Bool-cases, ==→eq, ==_refl}
use cpp_example_code.Base.Lists.{length}
use cpp_example_code.Hashtbl.State.{Ptr, Entry}
use cpp_example_code.Hashtbl.Read.{IsKeyed, one_if, read, copies, IsHashed, read-none}
use cpp_example_code.Hashtbl.Flat.{IsFlat}
use cpp_example_code.LinkedHashtbl.State.{Addr}
use cpp_example_code.LinkedHashtbl.Ring.{occurs, erase, occurs-erase}
use cpp_example_code.LinkedHashtbl.Ops.{find_node}

abbrev pub SameNodes : List Addr → List Addr → Type 0
SameNodes xs ys = (a : Addr) → occurs a xs ≡ occurs a ys

empty_of_none : (ys : List Addr) → ((a : Addr) → occurs a ys ≡ 0) → ys ≡ []
empty_of_none [] h = refl
empty_of_none (y ∷ ys) h = absurd (ground (arith, h y))

same_rest :
    (x : Addr) (xs ys : List Addr)
    → SameNodes (x ∷ xs) ys
    → (0 < occurs x ys) × SameNodes xs (erase x ys)
same_rest x xs ys h =
    let inside : 0 < occurs x ys = ground (arith, h x) in
    (inside, λ a. omega (arith, h a, occurs-erase a x ys inside))

length-erase : (a : Addr) (xs : List Addr) → 0 < occurs a xs → suc (length (erase a xs)) ≡ length xs
length-erase a [] h = absurd (omega arith)
length-erase a (x ∷ xs) h = elim (Bool-cases (a == x)) [
  | inl e ↦ rw e refl
  | inr e ↦ rw e (ap suc (length-erase a xs (ground arith)))
]

pub length_same : (xs ys : List Addr) → SameNodes xs ys → length xs ≡ length ys
length_same [] ys h = rw (empty_of_none ys (λ a. sym (h a))) refl
length_same (x ∷ xs) ys h =
    let (inside, rest) = same_rest x xs ys h in
    ap suc (length_same xs (erase x ys) rest) ∙ length-erase x ys inside

module _ (entries : Addr → Entry) {hash : Ptr → ℕ} {eq : Ptr → Ptr → Bool}
    (laws : IsKeyed hash eq) where
  pub copies-erase :
      (q : Ptr) (a : Addr) (xs : List Addr)
      → 0 < occurs a xs
      → copies eq q (map entries xs)
        ≡ one_if (eq (entries a).key q) + copies eq q (map entries (erase a xs))
  unfolding copies
  copies-erase q a [] h = absurd (omega arith)
  copies-erase q a (x ∷ xs) h = elim (Bool-cases (a == x)) [
    | inl e ↦ let same : x ≡ a = sym (==→eq a x e) in rw (e, same) refl
    | inr e ↦ let rest = copies-erase q a xs (ground arith) in rw e (omega arith)
  ]

  copies_same :
      (q : Ptr) (xs ys : List Addr)
      → SameNodes xs ys
      → copies eq q (map entries xs) ≡ copies eq q (map entries ys)
  unfolding copies
  copies_same q [] ys h = rw (empty_of_none ys (λ a. sym (h a))) refl
  copies_same q (x ∷ xs) ys h =
      let (inside, rest) = same_rest x xs ys h in
      omega (arith, copies_same q xs (erase x ys) rest, copies-erase q x ys inside)

  hashed_at :
      (a : Addr) (xs : List Addr)
      → IsHashed hash (map entries xs)
      → 0 < occurs a xs
      → (entries a).hash ≡ hash (entries a).key
  hashed_at a [] g h = absurd (omega arith)
  hashed_at a (x ∷ xs) (g, gs) h = elim (Bool-cases (a == x)) [
    | inl e ↦ rw (==→eq a x e) g
    | inr e ↦ hashed_at a xs gs (ground arith)
  ]

  IsHashed-all :
      (xs : List Addr)
      → ((a : Addr) → 0 < occurs a xs → (entries a).hash ≡ hash (entries a).key)
      → IsHashed hash (map entries xs)
  IsHashed-all [] h = tt
  IsHashed-all (x ∷ xs) h =
      (h x (ground (arith, ==_refl x)), IsHashed-all xs (λ a i. h a (omega arith)))

  -- An entry whose key is equal to `q` is the one that is read, if there is no other.
  pub read_at :
      (q : Ptr) (a : Addr) (xs : List Addr)
      → copies eq q (map entries xs) ≤ 1
      → 0 < occurs a xs
      → eq (entries a).key q ≡ true
      → read eq q (map entries xs) ≡ some (entries a).val
  unfolding read copies
  read_at q a [] once h e = absurd (omega arith)
  read_at q a (x ∷ xs) once h e = elim (Bool-cases (a == x)) [
    | inl i ↦ rw (← ==→eq a x i, e) refl
    | inr i ↦
        let inside : 0 < occurs a xs = ground arith in
        let counted = copies-erase q a xs inside in
        let other : eq (entries x).key q ≡ false = ground arith in
        rw other (read_at q a xs (omega arith) inside e)
  ]

  read_cases :
      (q : Ptr) (xs : List Addr)
      → ((read eq q (map entries xs) ≡ none) × (copies eq q (map entries xs) ≡ 0))
        ⊎ ((a : Addr) × (0 < occurs a xs)
            × (eq (entries a).key q ≡ true)
            × (read eq q (map entries xs) ≡ some (entries a).val))
  unfolding read copies
  read_cases q [] = inl (refl, refl)
  read_cases q (x ∷ xs) = elim (Bool-cases (eq (entries x).key q)) [
    | inl e ↦ inr (x, ground (arith, ==_refl x), e, rw e refl)
    | inr e ↦ elim (read_cases q xs) [
      | inl (a, b) ↦ inl (rw e a, rw e (omega (arith, b)))
      | inr (a, inside, same, r) ↦ inr (a, omega arith, same, rw e r)
    ]
  ]

  pub IsFlat-same :
      (f : Ptr → Option Ptr) (xs ys : List Addr)
      → SameNodes xs ys
      → IsFlat laws f (map entries xs)
      → IsFlat laws f (map entries ys)
  IsFlat-same f xs ys h flat = record {
    hashed = IsHashed-all ys (λ a i. hashed_at a xs flat.hashed (omega (arith, h a)));
    once = λ q. omega (arith, copies_same q xs ys h, flat.once q);
    reads = λ q. elim (read_cases q xs) [
      | inl (r, c) ↦
          read-none laws q (map entries ys) (sym (copies_same q xs ys h) ∙ c) ∙ sym r ∙ flat.reads q
      | inr (a, inside, same, r) ↦
          read_at q a ys (omega (arith, copies_same q xs ys h, flat.once q)) (omega (arith, h a))
            same
          ∙ sym r
          ∙ flat.reads q
    ];
  }

  -- The holder of a key: the node whose entry has an equal key.
  pub holder_of :
      (k : Ptr) (a : Addr) (xs : List Addr)
      → copies eq k (map entries xs) ≤ 1
      → 0 < occurs a xs
      → eq (entries a).key k ≡ true
      → find_node (λ b. eq (entries b).key k) xs ≡ some a
  unfolding find_node copies
  holder_of k a [] once h e = absurd (omega arith)
  holder_of k a (x ∷ xs) once h e = elim (Bool-cases (a == x)) [
    | inl i ↦ rw (← ==→eq a x i, e) refl
    | inr i ↦
        let inside : 0 < occurs a xs = ground arith in
        let counted = copies-erase k a xs inside in
        let other : eq (entries x).key k ≡ false = ground arith in
        rw other (holder_of k a xs (omega arith) inside e)
  ]

  pub holder_none :
      (k : Ptr) (xs : List Addr)
      → copies eq k (map entries xs) ≡ 0
      → find_node (λ b. eq (entries b).key k) xs ≡ none
  unfolding find_node copies
  holder_none k [] h = refl
  holder_none k (x ∷ xs) h =
      let other : eq (entries x).key k ≡ false = ground arith in
      rw other (holder_none k xs (omega arith))
