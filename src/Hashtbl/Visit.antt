-- ===== src/Hashtbl/Visit.antt =====
-- `hashtbl_apply` and the iterator: both meet every entry once, in the array's order.
use cpp_example_code.Base.{
  ℕ, zero, suc, ◌+◌, ◌<◌, ◌≡◌, refl, ◌∙◌, ◌⊎◌, inl, inr, Bool, true, Option, List, [], ◌∷◌, ◌++◌,
  map, flatten, arith,
}
use native.Mathlib.Numerals.{add-one}
use cpp_example_code.Base.Tests.{◌==◌, if◌then◌else◌}
use cpp_example_code.Base.Lists.{length, length-append, drop}
use cpp_example_code.Hashtbl.State.{Ptr, Entry, Chain, Hashtbl, ulong_mod, inc}
use cpp_example_code.Hashtbl.Ops.{
  apply_chain, apply_table, apply, Iter, iter_scan, iter_init, iter_next,
}
use cpp_example_code.Hashtbl.Resize.{Models}

module _ {ℓ} {S : Type ℓ} (fn : Ptr → Ptr → S → Bool × S) where
  -- the client's states along a list of entries
  abbrev pub fold_entries : Chain → S → S
  fold_entries [] s = s
  fold_entries (e ∷ c) s = fold_entries c (fn e.key e.val s).1

  apply_chain-fold :
      ((k v : Ptr) (s : S) → (fn k v s).0 ≡ true)
      → (c : Chain) (s : S) (n : ℕ) → n + length c < ulong_mod
      → apply_chain fn c s n ≡ (true, fold_entries c s, n + length c)
  unfolding apply_chain
  apply_chain-fold go [] s n lt = ground arith
  apply_chain-fold go (e ∷ c) s n lt =
      let step : inc n ≡ n + 1 = omega arith in
      rw (go e.key e.val s, step, apply_chain-fold go c (fn e.key e.val s).1 (n + 1) (omega arith))
        (ground arith)

  fold_entries-append :
      (a b : Chain) (s : S) → fold_entries (a ++ b) s ≡ fold_entries b (fold_entries a s)
  fold_entries-append [] b s = refl
  fold_entries-append (e ∷ a) b s = fold_entries-append a b (fn e.key e.val s).1

  apply_table-flatten :
      ((k v : Ptr) (s : S) → (fn k v s).0 ≡ true)
      → (t : List Chain) (s : S) (n : ℕ) → n + length (flatten t) < ulong_mod
      → apply_table fn t s n ≡ (fold_entries (flatten t) s, n + length (flatten t))
  unfolding apply_table flatten
  apply_table-flatten go [] s n lt = ground arith
  apply_table-flatten go (c ∷ t) s n lt =
      let split = length-append c (flatten t) in
      rw
        (
          apply_chain-fold go c s n (omega arith),
          apply_table-flatten go t (fold_entries c s) (n + length c) (omega arith),
          fold_entries-append c (flatten t) s,
        )
        (ground (arith, split))

-- With a function that never ends the enumeration, `hashtbl_apply` calls it on every entry once,
-- in the array's order, and returns the number of entries.
pub apply-fold {ℓ} :
    {S : Type ℓ} {D : Type 0} (fn : Ptr → Ptr → S → Bool × S) (h : Hashtbl D) (f : Ptr → Option Ptr)
    (s : S)
    → Models h f
    → ((k v : Ptr) (s : S) → (fn k v s).0 ≡ true)
    → apply h fn s ≡ (fold_entries fn (flatten h.table) s, h.nentries)
unfolding apply
apply-fold fn h f s m go =
    apply_table-flatten fn go h.table s 0 (omega (arith, m.stores.entries, m.fits))
    ∙ ground (arith, m.stores.entries)

-- What the iterator has not returned yet.
abbrev pub ahead : List Chain → Iter → Chain
ahead t it = elim it.entry [
  | [] ↦ flatten (drop it.pos t)
  | e ∷ c ↦ c ++ flatten (drop (it.pos + 1) t)
]

-- One step returns the next entry that is ahead, or 0 where nothing is.
pub record Advances (t : List Chain) (todo : Chain) (out : ℕ × Iter) : Type 0 where
  pub stops : todo ≡ [] → out.0 ≡ 0
  pub yields :
      (e : Entry) (c : Chain)
      → todo ≡ e ∷ c
      → (out.0 ≡ 1) × (out.1.key ≡ e.key) × (out.1.val ≡ e.val) × (ahead t out.1 ≡ c)

drop-suc {ℓ} :
    {A : Type ℓ} (i : ℕ) (t : List A) (c : A) (u : List A) → drop i t ≡ c ∷ u → drop (suc i) t ≡ u
drop-suc zero [] c u h = cc
drop-suc zero (x ∷ t) c u h = cc
drop-suc (suc i) [] c u h = cc
drop-suc (suc i) (x ∷ t) c u h = drop-suc i t c u h

drop_next {ℓ} :
    {A : Type ℓ} (i : ℕ) (t : List A) (c : A) (u : List A) → drop i t ≡ c ∷ u → drop (i + 1) t ≡ u
drop_next i t c u h = rw add-one (drop-suc i t c u h)

iter_scan-Advances :
    (t u : List Chain) (i : ℕ) (it : Iter)
    → drop i t ≡ u
    → it.entry ≡ []
    → Advances t (flatten u) (iter_scan u i it)
unfolding iter_scan flatten
iter_scan-Advances t [] i it at empty = record { stops = λ _. refl; yields = λ e c h. cc }
iter_scan-Advances t ([] ∷ u) i it at empty =
    iter_scan-Advances t u (i + 1) (record it { pos = i; entry = [] }) (drop_next i t [] u at) refl
iter_scan-Advances t ((e ∷ c) ∷ u) i it at empty = record {
  stops = λ h. cc;
  yields = λ e' c' h. (refl, cc, cc, rw (drop_next i t (e ∷ c) u at) (cc));
}

-- `hashtbl_iter_next` on an iterator of the table returns the entries that are ahead one by one,
-- and 0 when none is left.
pub iter_next-Advances :
    {D : Type 0} (h : Hashtbl D) (it : Iter) → Advances h.table (ahead h.table it) (iter_next h it)
unfolding iter_next
iter_next-Advances h it = elim (chain_cases it.entry) [
  | inl e ↦ rw (e, iter_next) (iter_scan-Advances h.table _ it.pos it refl e)
  | inr (inl (a, e)) ↦
      rw (e, iter_next)
        (iter_scan-Advances h.table _ (it.pos + 1) (record it { pos = it.pos + 1; entry = [] }) refl
          refl)
  | inr (inr (a, b, c, e)) ↦
      rw (e, iter_next) (record { stops = λ h. cc; yields = λ e' c' h. (refl, cc, cc, cc) })
]
  where
    chain_cases :
        (c : Chain)
        → (c ≡ [])
          ⊎ (((a : Entry) × (c ≡ a ∷ []))
              ⊎ ((a : Entry) × (b : Entry) × (d : Chain) × (c ≡ a ∷ (b ∷ d))))
    chain_cases [] = inl refl
    chain_cases (a ∷ []) = inr (inl (a, refl))
    chain_cases (a ∷ (b ∷ d)) = inr (inr (a, b, d, refl))

-- A client's loop `while (hashtbl_iter_next(h, &iter))`, on fuel, with what it sees.
unfoldable pub iterate : {D : Type 0} → ℕ → Hashtbl D → Iter → List (Ptr × Ptr)
iterate zero h it = []
iterate (suc fuel) h it =
    let it' = (iter_next h it).1 in
    let rest = iterate fuel h it' in
    if (iter_next h it).0 == 1 then (it'.key, it'.val) ∷ rest else []

abbrev pub binding : Entry → Ptr × Ptr
binding e = (e.key, e.val)

iterate-ahead :
    {D : Type 0} (h : Hashtbl D) (todo : Chain) (fuel : ℕ) (it : Iter)
    → ahead h.table it ≡ todo
    → length todo < fuel
    → iterate fuel h it ≡ map binding todo
unfolding iterate
iterate-ahead h todo zero it at lt = absurd (omega arith)
iterate-ahead h [] (suc fuel) it at lt =
    let stop : (iter_next h it).0 ≡ 0 = (iter_next-Advances h it).stops at in rw stop refl
iterate-ahead h (e ∷ todo) (suc fuel) it at lt =
    let (one, key, val, next) = (iter_next-Advances h it).yields e todo at in
    rw (one, key, val, iterate-ahead h todo fuel (iter_next h it).1 next (omega arith)) refl

-- From `hashtbl_iter_init` on, the loop sees every entry of the table exactly once, in the array's
-- order, and ends after one call more than there are entries.
pub iterate-iter_init :
    {D : Type 0} (h : Hashtbl D) (f : Ptr → Option Ptr)
    → Models h f
    → iterate (h.nentries + 1) h (iter_init h) ≡ map binding (flatten h.table)
unfolding iter_init
iterate-iter_init h f m =
    iterate-ahead h (flatten h.table) (h.nentries + 1) (iter_init h) refl
      (omega (arith, m.stores.entries))
