-- ===== src/Hashtbl/Slots.antt =====
-- The bucket array: where entries stand, what the array means as a map, and writes to one slot.
use cpp_example_code.Base.{
  ℕ, ◌+◌, ◌-◌, ◌≤◌, ◌<◌, ◌≡◌, ◌∙◌, ◌≢◌, inl, inr, Bool, true, Option, none, some, List, [], flatten,
  arith,
}
use Prim.Native.Nat.{max}
use cpp_example_code.Base.Bits.{bit_and-le}
use cpp_example_code.Base.Tests.{Bool-cases, ◌==◌}
use cpp_example_code.Base.Lists.{
  length, get_or, set, replicate, length-set, length-replicate, get_or-replicate, get_or-set,
  length-flatten-set, length-flatten-replicate,
}
use cpp_example_code.Hashtbl.State.{Ptr, Entry, Chain}
use cpp_example_code.Hashtbl.Capacity.{tbl_index}
use cpp_example_code.Hashtbl.Read.{IsKeyed, one_if, read, copies, update, IsHashed, read-none}

pub tbl_index-lt : (hashval size : ℕ) → 0 < size → tbl_index hashval size < size
unfolding tbl_index
tbl_index-lt hashval size h = omega (arith, bit_and-le hashval (size - 1))

abbrev pub or_else : Option Ptr → Option Ptr → Option Ptr
or_else (some v) o = some v
or_else none o = o

module _ (hash : Ptr → ℕ) (eq : Ptr → Ptr → Bool) where
  abbrev pub home : Ptr → ℕ → ℕ
  home k n = tbl_index (hash k) n

  abbrev pub chain_at : ℕ → List Chain → Ptr → Chain
  chain_at n t k = get_or t (home k n) []

  -- the map that an array of `n` slots stands for
  abbrev pub view : ℕ → List Chain → Ptr → Option Ptr
  view n t q = read eq q (chain_at n t q)

  -- `t` has `n` slots and `total` entries, each in its key's slot under its key's hash, no key
  -- twice; and it stands for `f`.
  pub record Stores (n total : ℕ) (f : Ptr → Option Ptr) (t : List Chain) : Type 0 where
    pub width : length t ≡ n
    pub entries : length (flatten t) ≡ total
    pub hashed : (i : ℕ) → IsHashed hash (get_or t i [])
    pub placed :
        (q : Ptr) (i : ℕ)
        → (copies eq q (get_or t i []) ≤ 1) × (home q n ≢ i → copies eq q (get_or t i []) ≡ 0)
    pub reads : (q : Ptr) → view n t q ≡ f q

module _ {hash : Ptr → ℕ} {eq : Ptr → Ptr → Bool} (laws : IsKeyed hash eq) where
  open laws use {eq_refl, eq_symm, hash-eq}

  pub home_congr : (a b : Ptr) (n : ℕ) → eq a b ≡ true → home hash eq a n ≡ home hash eq b n
  home_congr a b n h = rw (hash-eq a b h)

  pub Stores-replicate : (n : ℕ) → Stores hash eq n 0 (λ _. none) (replicate n [])
  unfolding read copies
  Stores-replicate n = record {
    width = length-replicate n [];
    entries = length-flatten-replicate Entry n;
    hashed = λ i. rw get_or-replicate tt;
    placed = λ q i. rw get_or-replicate (omega arith);
    reads = λ q. rw get_or-replicate;
  }

  module _ (t : List Chain) (n total : ℕ) (f : Ptr → Option Ptr) where
    -- Every operation on one key replaces the chain in its slot.
    pub Stores-set :
        Stores hash eq n total f t
        → 0 < n
        → (k : Ptr) (v : Option Ptr) (c : Chain) (total' : ℕ) → IsHashed hash c
        → total' + length (chain_at hash eq n t k) ≡ total + length c
        → ((q : Ptr) → copies eq q c ≤ max (one_if (eq k q)) (copies eq q (chain_at hash eq n t k)))
        → ((q : Ptr) → read eq q c ≡ update eq (λ q. read eq q (chain_at hash eq n t k)) k v q)
        → Stores hash eq n total' (update eq f k v) (set t (home hash eq k n) c)
    Stores-set s pos k v c total' good size few value = record {
      width = length-set t i c ∙ s.width;
      entries = omega (arith, s.width, s.entries, length-flatten-set t i c inside);
      hashed = λ j. elim (Bool-cases (i == j)) [
        | inl same ↦ rw (get_or-set t i j c [] inside, same) good
        | inr other ↦ rw (get_or-set t i j c [] inside, other) (s.hashed j)
      ];
      placed = λ q j.
          rw (get_or-set t i j c [] inside) (ground (arith, s.placed q j, few q, home_congr k q n));
      reads = λ q. rw (get_or-set t i (home hash eq q n) c [] inside) (
          ground
            (arith, s.reads q, value q, home_congr k q n, s.placed q i, read-none laws q c, few q));
    }
      where
        i : ℕ
        i = home hash eq k n

        inside : i < length t
        inside = omega (arith, tbl_index-lt (hash k) n pos, s.width)
