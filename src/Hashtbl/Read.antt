-- ===== src/Hashtbl/Read.antt =====
-- What one chain means: the value that it holds for a key, and how the three walks change it.
use cpp_example_code.Base.{
  ℕ, ◌+◌, ◌≤◌, ◌≡◌, refl, Bool, true, ◌&&◌, Option, none, some, [], ◌∷◌, arith,
}
use cpp_example_code.Base.Tests.{◌==◌, if◌then◌else◌}
use cpp_example_code.Base.Lists.{length, All}
pub use cpp_example_code.Base.Occurs.{one_if}
use cpp_example_code.Hashtbl.State.{Ptr, Entry, Chain}
use cpp_example_code.Hashtbl.Chain.{find_first, unlink_first, assign_first}

-- What a hash table asks of its key functions: equality is an equivalence, and equal keys hash
-- alike.
pub record IsKeyed (hash : Ptr → ℕ) (eq : Ptr → Ptr → Bool) : Type 0 where
  pub eq_refl : (a : Ptr) → eq a a ≡ true
  pub eq_symm : (a b : Ptr) → eq a b ≡ eq b a
  pub eq_trans : (a b c : Ptr) → eq a b ≡ true → eq b c ≡ true → eq a c ≡ true
  pub hash-eq : (a b : Ptr) → eq a b ≡ true → hash a ≡ hash b

module _ (eq : Ptr → Ptr → Bool) where
  -- the value of the first entry whose key is equal to `q`
  unfoldable pub read : Ptr → Chain → Option Ptr
  read q [] = none
  read q (e ∷ c) = if eq e.key q then some e.val else read q c

  -- how many entries have such a key
  unfoldable pub copies : Ptr → Chain → ℕ
  copies q [] = 0
  copies q (e ∷ c) = one_if (eq e.key q) + copies q c

  -- a write to a map from keys
  abbrev pub update : (Ptr → Option Ptr) → Ptr → Option Ptr → Ptr → Option Ptr
  update f k v q = if eq k q then v else f q

abbrev pub IsHashed : (Ptr → ℕ) → Chain → Type 0
IsHashed hash = All λ e. e.hash ≡ hash e.key

module _ {hash : Ptr → ℕ} {eq : Ptr → Ptr → Bool} (laws : IsKeyed hash eq) where
  open laws use {eq_refl, eq_symm, eq_trans, hash-eq}

  pub eq_congr : (a b q : Ptr) → eq a b ≡ true → eq a q ≡ eq b q
  eq_congr a b q h = ground (arith, eq_symm a b, eq_trans a b q, eq_trans b a q)

  abbrev pub test : Ptr → Entry → Bool
  test k e = e.hash == hash k && eq e.key k

  -- On an entry with the right hash the test is the keys' equality.
  pub test-eq : (k : Ptr) (e : Entry) → e.hash ≡ hash e.key → test k e ≡ eq e.key k
  test-eq k e h = ground (arith, hash-eq e.key k)

  -- `find_entry` stops at the entry that `read` reads, and its key is equal to the one given.
  pub find_first-read :
      (k : Ptr) (c : Chain) (e : Entry)
      → IsHashed hash c
      → find_first (test k) c ≡ some e
      → (read eq k c ≡ some e.val) × (eq e.key k ≡ true)
  unfolding find_first read
  find_first-read k [] found g h = cc
  find_first-read k (e ∷ c) found (g, gs) h =
      ground (arith, test-eq k e g, find_first-read k c found gs)

  pub find_first-none :
      (k : Ptr) (c : Chain) → IsHashed hash c → find_first (test k) c ≡ none → copies eq k c ≡ 0
  unfolding find_first copies
  find_first-none k [] g h = refl
  find_first-none k (e ∷ c) (g, gs) h = ground (arith, test-eq k e g, find_first-none k c gs)

  pub read-none : (q : Ptr) (c : Chain) → copies eq q c ≡ 0 → read eq q c ≡ none
  unfolding read copies
  read-none q [] h = refl
  read-none q (e ∷ c) h = ground (arith, read-none q c)

  pub none-read : (q : Ptr) (c : Chain) → read eq q c ≡ none → copies eq q c ≡ 0
  unfolding read copies
  none-read q [] h = refl
  none-read q (e ∷ c) h = ground (arith, none-read q c)

  pub copies_congr : (k q : Ptr) (c : Chain) → eq k q ≡ true → copies eq q c ≡ copies eq k c
  unfolding copies
  copies_congr k q [] h = refl
  copies_congr k q (e ∷ c) h =
      ground (arith, copies_congr k q c h, eq_congr k q e.key h, eq_symm e.key k, eq_symm e.key q)

  module _ (k q : Ptr) where
    -- Assigning changes the value at the key and at no other key.
    pub read-assign_first :
        (v : Ptr) (c : Chain) (e : Entry)
        → IsHashed hash c
        → find_first (test k) c ≡ some e
        → read eq q (assign_first (test k) v c) ≡ update eq (λ q. read eq q c) k (some v) q
    unfolding find_first read assign_first
    read-assign_first v [] found g h = cc
    read-assign_first v (e ∷ c) found (g, gs) h = ground (
      arith,
      test-eq k e g,
      read-assign_first v c found gs,
      eq_congr e.key k q,
      eq_congr e.key q k,
      eq_symm k q,
    )

    pub copies-assign_first :
        (v : Ptr) (c : Chain) → copies eq q (assign_first (test k) v c) ≡ copies eq q c
    unfolding copies assign_first
    copies-assign_first v [] = refl
    copies-assign_first v (e ∷ c) = ground (arith, copies-assign_first v c)

    -- Unlinking clears the key, where it occurs once, and no other key.
    pub read-unlink_first :
        (c : Chain)
        → IsHashed hash c
        → copies eq q c ≤ 1
        → read eq q (unlink_first (test k) c) ≡ update eq (λ q. read eq q c) k none q
    unfolding read unlink_first copies
    read-unlink_first [] g h = ground arith
    read-unlink_first (e ∷ c) (g, gs) h = ground (
      arith,
      test-eq k e g,
      read-unlink_first c gs,
      read-none q c,
      eq_congr e.key k q,
      eq_congr e.key q k,
      eq_symm k q,
    )

    pub copies-unlink_first : (c : Chain) → copies eq q (unlink_first (test k) c) ≤ copies eq q c
    unfolding copies unlink_first
    copies-unlink_first [] = omega arith
    copies-unlink_first (e ∷ c) = ground (arith, copies-unlink_first c)

  pub assign_first-IsHashed :
      (k v : Ptr) (c : Chain) → IsHashed hash c → IsHashed hash (assign_first (test k) v c)
  unfolding assign_first
  assign_first-IsHashed k v [] g = tt
  assign_first-IsHashed k v (e ∷ c) (g, gs) = ground (arith, assign_first-IsHashed k v c gs)

  pub unlink_first-IsHashed :
      (k : Ptr) (c : Chain) → IsHashed hash c → IsHashed hash (unlink_first (test k) c)
  unfolding unlink_first
  unlink_first-IsHashed k [] g = tt
  unlink_first-IsHashed k (e ∷ c) (g, gs) = ground (arith, unlink_first-IsHashed k c gs)

  pub length-assign_first : (k v : Ptr) (c : Chain) → length (assign_first (test k) v c) ≡ length c
  unfolding assign_first
  length-assign_first k v [] = refl
  length-assign_first k v (e ∷ c) = ground (arith, length-assign_first k v c)

  pub length-unlink_first :
      (k : Ptr) (c : Chain) (e : Entry)
      → find_first (test k) c ≡ some e
      → length (unlink_first (test k) c) + 1 ≡ length c
  unfolding find_first unlink_first
  length-unlink_first k [] found h = cc
  length-unlink_first k (e ∷ c) found h = ground (arith, length-unlink_first k c found)
