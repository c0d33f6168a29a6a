-- ===== src/LinkedHashtbl/Insert.antt =====
-- `l_hashtbl_insert`: a new value under an old key, a new entry, and the eviction of the oldest one.
use cpp_example_code.Base.{
  ℕ, ◌+◌, ◌<◌, ◌≡◌, refl, sym, ap, ◌∙◌, inl, inr, Bool, true, false, Option, none, some, List, [],
  ◌∷◌, ◌++◌, arith,
}
use mathlib.Core.Option.{some-injective, none-ne-some}
use mathlib.Core.Path.{subst}
use cpp_example_code.Base.Tests.{if◌then◌else◌, Bool-cases, Option-cases}
use cpp_example_code.Hashtbl.State.{Ptr, Doubles, Call, val_free, inc, ulong_mod}
use cpp_example_code.Hashtbl.Freed.{FreedByRemoval}
use cpp_example_code.Hashtbl.Read.{update}
use cpp_example_code.Base.Occurs.{last_or, occurs-last_or}
use cpp_example_code.LinkedHashtbl.State.{Addr, head, Links, Linked}
use cpp_example_code.LinkedHashtbl.Ring.{occurs, erase, Segment}
use cpp_example_code.LinkedHashtbl.Ops.{l_link, l_remove, evict, l_grow, l_settle, l_insert}
use cpp_example_code.LinkedHashtbl.View.{Keeps}
use cpp_example_code.LinkedHashtbl.Order.{holder_of}
use cpp_example_code.LinkedHashtbl.Access.{holder, order-IsFlat, l_find_entry-cases}
use cpp_example_code.LinkedHashtbl.Change.{
  settings, overwritten-Keeps, linked-Keeps, Gone, nobody, gone, l_remove-Gone,
}
use cpp_example_code.LinkedHashtbl.Resize.{Grown, l_grow-Grown}

Segment-last :
    (l : Links) (a : Addr) (xs : List Addr) (b : Addr) → Segment l a xs b → l.prev b ≡ last_or a xs
Segment-last l a [] b (s, t) = t
Segment-last l a (x ∷ xs) b (s, t, rest) = Segment-last l x xs b rest

module _ {D : Type 0} where
  -- the table in which the new entry has been linked at `a`
  abbrev pub entered : Linked D → Ptr → Ptr → Addr → Linked D
  entered h k v a = l_link h a (record { key = k; val = v; hash = h.hash_fn k })

  -- What an eviction does to a table with the list `a ∷ order`: the last node goes, with its key in
  -- the map, and its entry is freed.
  pub record Evicted (h : Linked D) (a : Addr) (order : List Addr) (f : Ptr → Option Ptr)
      (out : Linked D × List Call) : Type 0 where
    pub after : Linked D
    pub calls : List Call
    pub returns : out ≡ (after, calls)
    pub freed : FreedByRemoval h.key_free_fn h.val_free_fn (h.entries (last_or a order)) calls
    pub keeps :
        Keeps after
          (erase (last_or a order) (a ∷ order))
          (update h.equals_fn f (h.entries (last_or a order)).key none)
    pub same_settings : settings after ≡ settings h
    pub same_entries : after.entries ≡ h.entries
    pub counted : after.nentries + 1 ≡ h.nentries

  module _ (h : Linked D) (a : Addr) (order : List Addr) (f : Ptr → Option Ptr)
      (keeps : Keeps h (a ∷ order) f) where
    abbrev oldest : Addr
    oldest = last_or a order

    oldest_held : holder h (h.entries oldest).key (a ∷ order) ≡ some oldest
    oldest_held =
        holder_of h.entries keeps.models.keyed (h.entries oldest).key oldest (a ∷ order)
          ((order-IsFlat h (a ∷ order) f keeps).once (h.entries oldest).key)
          (occurs-last_or a order) (keeps.models.keyed.eq_refl (h.entries oldest).key)

    Gone-Evicted :
        (out : ℕ × Linked D × List Call)
        → Gone h (a ∷ order) f keeps (h.entries oldest).key out
        → Evicted h a order f (out.1, out.2)
    Gone-Evicted _ (nobody absent none_holds) =
        absurd (none-ne-some oldest (sym none_holds ∙ oldest_held))
    Gone-Evicted _ (gone b after calls value holds inside kept same entries counted freed) =
        let e : b ≡ oldest = some-injective b oldest (sym holds ∙ oldest_held) in
        record {
          after = after;
          calls = calls;
          returns = refl;
          freed =
              subst (λ t. FreedByRemoval h.key_free_fn h.val_free_fn (h.entries t) calls) e freed;
          keeps =
              subst
                (λ t.
                  Keeps after (erase t (a ∷ order))
                    (update h.equals_fn f (h.entries oldest).key none))
                e kept;
          same_settings = same;
          same_entries = entries;
          counted = counted;
        }

    evict-Evicted : Evicted h a order f (evict true h)
    unfolding evict
    evict-Evicted = rw (Segment-last h.links head (a ∷ order) head keeps.ring.ring) (
        Gone-Evicted (l_remove h (h.entries oldest).key)
          (l_remove-Gone h (a ∷ order) f keeps (h.entries oldest).key))

counted_up : (n : ℕ) → n + 1 < ulong_mod → inc n ≡ n + 1
counted_up n fits = omega arith

module _ {D : Type 0} (fp : Doubles D) where
  -- What an insertion of `v` under `k` does to a table with the list `order` that stands for `f`:
  -- a key that is there keeps its node and its place and gets the value, and the old value is freed;
  -- without memory for the entry nothing changes and the result is 1; a new entry comes to the
  -- front, and if the evictor answers for it, the last node of the list goes.
  pub data Inserted (h : Linked D) (order : List Addr) (f : Ptr → Option Ptr) (k v : Ptr)
      : Option Addr → Bool → Option (ℕ × Linked D × List Call) → Type 0 where
    replaced :
        (memory : Option Addr) (evicts : Bool) (a : Addr) (after : Linked D)
        → f k ≡ some (h.entries a).val
        → holder h k order ≡ some a
        → Keeps after order (update h.equals_fn f k (some v))
        → settings after ≡ settings h
        → after.nentries ≡ h.nentries
        → Inserted h order f k v memory evicts
            (some (0, after, if h.val_free_fn then val_free (h.entries a).val ∷ [] else []))
    no_memory : (evicts : Bool) → f k ≡ none → Inserted h order f k v none evicts (some (1, h, []))
    added :
        (a : Addr) (after : Linked D) (calls : List Call)
        → f k ≡ none
        → Keeps after (a ∷ order) (update h.equals_fn f k (some v))
        → settings after ≡ settings h
        → after.nentries ≡ h.nentries + 1
        → Inserted h order f k v (some a) false (some (0, after, calls))
    added_and_evicted :
        (a : Addr) (after : Linked D) (freed calls : List Call)
        → f k ≡ none
        → Keeps after (erase (last_or a order) (a ∷ order)) (
            update h.equals_fn
              (update h.equals_fn f k (some v))
              (after.entries (last_or a order)).key
              none)
        → settings after ≡ settings h
        → after.nentries ≡ h.nentries
        → FreedByRemoval h.key_free_fn h.val_free_fn (after.entries (last_or a order)) freed
        → Inserted h order f k v (some a) true (some (0, after, freed ++ calls))

  settled :
      (granted : Bool) (kept : Linked D) (order : List Addr) (f : Ptr → Option Ptr)
      (calls : List Call) (r : Grown fp kept order f (l_grow fp granted kept))
      → l_settle fp granted (kept, calls) ≡ some (0, r.after, calls ++ r.calls)
  unfolding l_settle
  settled granted kept order f calls r = rw (r.returns, l_settle) refl

  module _ (granted : Bool) (h : Linked D) (order : List Addr) (f : Ptr → Option Ptr) (k v : Ptr)
      (a : Addr) (keeps : Keeps h order f) (absent : f k ≡ none) (proper : 0 < a)
      (new : occurs a order ≡ 0) (fits : h.nentries + 1 < ulong_mod) where
    abbrev f1 : Ptr → Option Ptr
    f1 = update h.equals_fn f k (some v)

    entered-Keeps : Keeps (entered h k v a) (a ∷ order) f1
    entered-Keeps =
        linked-Keeps h order f keeps a (record { key = k; val = v; hash = h.hash_fn k }) new proper
          refl absent fits

    adding :
        Inserted h order f k v (some a) false (l_settle fp granted (evict false (entered h k v a)))
    unfolding l_link evict
    adding =
        let r = l_grow-Grown fp granted (entered h k v a) (a ∷ order) f1 entered-Keeps in
        subst (λ t. Inserted h order f k v (some a) false t)
          (sym (settled granted (entered h k v a) (a ∷ order) f1 [] r))
          (added a r.after r.calls absent r.keeps r.same_settings
            (r.counted ∙ counted_up h.nentries fits))

    evicting :
        Inserted h order f k v (some a) true (l_settle fp granted (evict true (entered h k v a)))
    unfolding l_link
    evicting =
        let b = last_or a order in
        let e = entered h k v a in
        let x = evict-Evicted e a order f1 entered-Keeps in
        let r =
          l_grow-Grown fp granted x.after (erase b (a ∷ order))
            (update h.equals_fn f1 (e.entries b).key none) x.keeps in
        let same : r.after.entries ≡ e.entries = r.same_entries ∙ x.same_entries in
        let counted : r.after.nentries ≡ h.nentries = omega (arith, r.counted, x.counted, fits) in
        subst (λ t. Inserted h order f k v (some a) true t)
          (sym (
            ap (l_settle fp granted) x.returns
            ∙ settled granted x.after (erase b (a ∷ order))
                (update h.equals_fn f1 (e.entries b).key none) x.calls r))
          (added_and_evicted a r.after x.calls r.calls absent
            (subst (λ t. Keeps r.after (erase b (a ∷ order)) (update h.equals_fn f1 (t b).key none))
              (sym same) r.keeps)
            (r.same_settings ∙ x.same_settings) counted
            (subst (λ t. FreedByRemoval h.key_free_fn h.val_free_fn (t b) x.calls) (sym same)
              x.freed))

  -- `l_hashtbl_insert` ends, and does what `Inserted` says, if there is room to count one more entry
  -- and the allocator answers with an address that is no entry of the table.
  pub l_insert-Inserted :
      (granted : Bool) (memory : Option Addr) (evicts : Bool) (h : Linked D) (order : List Addr)
      (f : Ptr → Option Ptr) (k v : Ptr)
      → Keeps h order f
      → ((a : Addr) → memory ≡ some a → (0 < a) × (occurs a order ≡ 0))
      → h.nentries + 1 < ulong_mod
      → Inserted h order f k v memory evicts (l_insert fp granted memory evicts h k v)
  unfolding l_insert
  l_insert-Inserted granted memory evicts h order f k v keeps fresh fits =
      elim (l_find_entry-cases h order f keeps k) [
        | inr (a, there, value, holds, in_order, in_slot) ↦
            rw (there, l_insert)
              (replaced memory evicts a _ value holds
                (overwritten-Keeps h order f keeps k v a there) refl refl)
        | inl (missing, absent, none_holds) ↦
            rw (missing, l_insert)
              (elim (Option-cases memory) [
                | inl e ↦ rw e (no_memory evicts absent)
                | inr (a, e) ↦ rw e (elim (Bool-cases evicts) [
                  | inl goes ↦ rw goes (
                      evicting granted h order f k v a keeps absent (fresh a e).0 (fresh a e).1
                        fits)
                  | inr stays ↦
                      rw stays (
                        adding granted h order f k v a keeps absent (fresh a e).0 (fresh a e).1
                          fits)
                ])
              ])
      ]
