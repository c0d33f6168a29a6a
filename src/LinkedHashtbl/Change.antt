-- ===== src/LinkedHashtbl/Change.antt =====
-- A new entry, a new value and a removed entry: what they do to the map and to the order.
use cpp_example_code.Base.{
  ℕ, ◌+◌, ◌<◌, ◌≡◌, refl, sym, ap, ◌∙◌, inl, inr, Bool, Option, none, some, List, [], ◌∷◌, flatten,
  arith,
}
use mathlib.Core.Path.{subst}
use cpp_example_code.Base.Lists.{set}
use cpp_example_code.Base.Loops.{assign}
use cpp_example_code.Hashtbl.State.{Ptr, Entry, Call, dec, ulong_mod}
use cpp_example_code.Hashtbl.Capacity.{tbl_index}
use cpp_example_code.Hashtbl.Freed.{FreedByRemoval, calls-Freed}
use cpp_example_code.Hashtbl.Read.{update}
use cpp_example_code.Hashtbl.Resize.{Models}
use cpp_example_code.Hashtbl.Insert.{overwritten-Models, link_entry-Models}
use cpp_example_code.Hashtbl.Remove.{unlinked-Models}
use cpp_example_code.LinkedHashtbl.State.{Addr, Linked}
use cpp_example_code.LinkedHashtbl.Ring.{
  occurs, erase, list_remove, list_add_before-IsRing, list_remove-IsRing, occurs-erase,
}
use cpp_example_code.LinkedHashtbl.Ops.{
  unlink_node, l_matches, l_tbl_entry, l_find_entry, l_link, l_remove_key, l_remove,
}
use cpp_example_code.LinkedHashtbl.Slots.{at_entry, occurs-flatten-set}
use cpp_example_code.LinkedHashtbl.View.{
  view, Keeps, find_entry-view, index_inside, view-l_link, view-overwrite, view-unlinked,
}
use cpp_example_code.LinkedHashtbl.Access.{holder, once_in_array, found_in_slot, l_find_entry-cases}

module _ {D : Type 0} where
  -- The fields that are set once, by `l_hashtbl_create`.
  abbrev pub settings : Linked D → (Ptr → ℕ) × (Ptr → Ptr → Bool) × D × Bool × Bool × Bool × Bool
  settings h = (
    h.hash_fn, h.equals_fn, h.max_load_factor, h.auto_resize, h.access_order, h.key_free_fn,
    h.val_free_fn,
  )

  module _ (h : Linked D) (order : List Addr) (f : Ptr → Option Ptr) (keeps : Keeps h order f) where
    -- Writing the value under a key that is there keeps the order.
    pub overwritten-Keeps :
        (k v : Ptr) (a : Addr)
        → l_find_entry h (h.hash_fn k) k ≡ some a
        → Keeps
            (record h { entries = assign h.entries a (record (h.entries a) { val = v }) })
            order
            (update h.equals_fn f k (some v))
    overwritten-Keeps k v a there = record {
      ring = keeps.ring;
      same = keeps.same;
      models =
          subst (λ t. Models t (update h.equals_fn f k (some v)))
            (sym (view-overwrite h k v a (once_in_array h order f keeps a) there))
            (overwritten-Models (view h) f k v (h.entries a) keeps.models
              (find_entry-view h (h.hash_fn k) k ∙ ap (at_entry h.entries) there));
    }

    -- A new entry at a new address comes to the front.
    pub linked-Keeps :
        (a : Addr) (e : Entry)
        → occurs a order ≡ 0
        → 0 < a
        → e.hash ≡ h.hash_fn e.key
        → f e.key ≡ none
        → h.nentries + 1 < ulong_mod
        → Keeps (l_link h a e) (a ∷ order) (update h.equals_fn f e.key (some e.val))
    unfolding l_link
    linked-Keeps a e new proper hashed absent fits =
        let i = tbl_index e.hash h.table_size in
        let inside = index_inside h f e.hash keeps.models in
        let free : occurs a (flatten h.table) ≡ 0 = omega (arith, keeps.same a) in
        record {
          ring = list_add_before-IsRing h.links a order keeps.ring new proper;
          same = λ b. omega (
            arith,
            occurs-flatten-set b h.table i (a ∷ l_tbl_entry h e.hash) inside,
            keeps.same b,
          );
          models =
              subst (λ t. Models t (update h.equals_fn f e.key (some e.val)))
                (sym (view-l_link h a e free))
                (link_entry-Models (view h) f e keeps.models hashed absent fits).0;
        }

    -- the table that `l_hashtbl_remove` leaves without the node `a`, found under `k`
    abbrev without : Ptr → Addr → Linked D
    without k a =
        let hv = h.hash_fn k in
        record h {
          table =
              set h.table (tbl_index hv h.table_size)
                (unlink_node (l_matches h hv k) (l_tbl_entry h hv));
          nentries = dec h.nentries;
          links = list_remove h.links a;
        }

    without-Keeps :
        (k : Ptr) (a : Addr)
        → l_find_entry h (h.hash_fn k) k ≡ some a
        → 0 < occurs a order
        → Keeps (without k a) (erase a order) (update h.equals_fn f k none)
          × (dec h.nentries + 1 ≡ h.nentries)
    without-Keeps k a there in_order =
        let hv = h.hash_fn k in
        let i = tbl_index hv h.table_size in
        let slot = l_tbl_entry h hv in
        let (in_slot, out) = found_in_slot h order f keeps k a there in
        let (models, counted) =
          unlinked-Models (view h) f k (h.entries a) keeps.models
            (find_entry-view h hv k ∙ ap (at_entry h.entries) there) in
        (
          record {
            ring = list_remove-IsRing h.links a order keeps.ring in_order;
            same = λ b.
                let less = occurs-erase b a slot in_slot in
                let shorter : occurs b (unlink_node (l_matches h hv k) slot)
                    ≡ occurs b (erase a slot) =
                  ap (occurs b) out in
                omega (
                  arith,
                  occurs-flatten-set b h.table i (unlink_node (l_matches h hv k) slot)
                      (index_inside h f hv keeps.models),
                  occurs-erase b a order in_order,
                  keeps.same b,
                );
            models =
                subst (λ t. Models t (update h.equals_fn f k none))
                  (ap (λ t. record (view h) { table = t; nentries = dec h.nentries })
                    (sym (view-unlinked h k)))
                  models;
          },
          counted,
        )

    -- What a removal does: nothing but return 1 where the map has no value at the key; otherwise the
    -- node that holds the key goes, with its key in the map, and the entry is freed.
    pub data Gone (k : Ptr) : ℕ × Linked D × List Call → Type 0 where
      nobody : f k ≡ none → holder h k order ≡ none → Gone k (1, h, [])
      gone :
          (a : Addr) (after : Linked D) (calls : List Call)
          → f k ≡ some (h.entries a).val
          → holder h k order ≡ some a
          → 0 < occurs a order
          → Keeps after (erase a order) (update h.equals_fn f k none)
          → settings after ≡ settings h
          → after.entries ≡ h.entries
          → after.nentries + 1 ≡ h.nentries
          → FreedByRemoval h.key_free_fn h.val_free_fn (h.entries a) calls
          → Gone k (0, after, calls)

    -- `l_hashtbl_remove` removes the entry of the key from the array, from the list and from the map, and frees the key
    -- and the value (if that is not NULL) as the table was told to, and the entry, each once and in this order; or it
    -- returns 1 and changes and frees nothing.
    pub l_remove-Gone : (k : Ptr) → Gone k (l_remove h k)
    unfolding l_remove l_remove_key
    l_remove-Gone k = elim (l_find_entry-cases h order f keeps k) [
      | inl (missing, absent, none_holds) ↦
          rw (missing, l_remove, l_remove_key) (nobody absent none_holds)
      | inr (a, there, value, holds, in_order, in_slot) ↦
          let (after, counted) = without-Keeps k a there in_order in
          rw (there, l_remove, l_remove_key)
            (gone a (without k a) _ value holds in_order after refl refl counted
              (calls-Freed h.key_free_fn _ (h.entries a)))
    ]
