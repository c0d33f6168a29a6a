-- ===== src/LinkedHashtbl/View.antt =====
-- A linked table as the table of hashtbl.c that it is without its list, and the invariant that ties
-- the array, the list and the map together.
use cpp_example_code.Base.{
  ℕ, ◌≤◌, ◌<◌, ◌≡◌, sym, ap, ◌∙◌, Option, none, some, List, [], ◌∷◌, flatten, map, arith,
}
use cpp_example_code.Base.Lists.{length, get_or, set}
use cpp_example_code.Base.Loops.{assign, assign_self}
use cpp_example_code.Hashtbl.State.{Ptr, Entry, Hashtbl, inc}
use cpp_example_code.Hashtbl.Capacity.{tbl_index}
use cpp_example_code.Hashtbl.Chain.{find_first, unlink_first, assign_first}
use cpp_example_code.Hashtbl.Ops.{find_entry, link_entry, overwrite, matches}
use cpp_example_code.Hashtbl.Slots.{tbl_index-lt}
use cpp_example_code.Hashtbl.Rounding.{IsSize-pos}
use cpp_example_code.Hashtbl.Resize.{Models}
use cpp_example_code.Hashtbl.Remove.{unlinked}
use cpp_example_code.LinkedHashtbl.State.{Addr, Linked}
use cpp_example_code.LinkedHashtbl.Ring.{occurs, IsRing}
use cpp_example_code.LinkedHashtbl.Ops.{unlink_node, l_tbl_entry, l_matches, l_find_entry, l_link}
use cpp_example_code.LinkedHashtbl.Slots.{
  at_entry, entry_slots, get_or-entry_slots, entry_slots-set, length-entry_slots, find_first-map,
  unlink_first-map, find_node-occurs, map-assign_out, occurs-slot-le, entry_slots-assign_out,
  map-assign_first, entry_slots-assign,
}

module _ {D : Type 0} where
  -- The table without its list, with the entries in place of their addresses.
  abbrev pub view : Linked D → Hashtbl D
  view h = record {
    max_load_factor = h.max_load_factor;
    hash_fn = h.hash_fn;
    equals_fn = h.equals_fn;
    nentries = h.nentries;
    table_size = h.table_size;
    resize_threshold = h.resize_threshold;
    auto_resize = h.auto_resize;
    key_free_fn = h.key_free_fn;
    val_free_fn = h.val_free_fn;
    table = entry_slots h.entries h.table;
  }

  -- The list of all entries is a ring of the nodes `order`, the same nodes stand in the bucket
  -- array, each once, and the array stands for the map `f` as in hashtbl.c.
  pub record Keeps (h : Linked D) (order : List Addr) (f : Ptr → Option Ptr) : Type 0 where
    pub ring : IsRing h.links order
    pub same : (a : Addr) → occurs a (flatten h.table) ≡ occurs a order
    pub models : Models (view h) f

  module _ (h : Linked D) where
    pub find_entry-view :
        (hv : ℕ) (k : Ptr) → find_entry (view h) hv k ≡ at_entry h.entries (l_find_entry h hv k)
    unfolding find_entry l_find_entry
    find_entry-view hv k =
        ap (find_first (matches (view h) hv k))
          (get_or-entry_slots h.entries h.table (tbl_index hv h.table_size))
        ∙ find_first-map h.entries (matches (view h) hv k) (l_tbl_entry h hv)

    -- the places of the array that a hash value is for
    pub index_inside :
        (f : Ptr → Option Ptr) (hv : ℕ)
        → Models (view h) f
        → tbl_index hv h.table_size < length h.table
    index_inside f hv m = omega (
      arith,
      m.stores.width,
      length-entry_slots h.entries h.table,
      tbl_index-lt hv h.table_size (IsSize-pos _ m.size),
    )

    -- Linking a new entry is linking it in the table of hashtbl.c.
    pub view-l_link :
        (a : Addr) (e : Entry)
        → occurs a (flatten h.table) ≡ 0
        → view (l_link h a e) ≡ link_entry (view h) e
    unfolding l_link link_entry
    view-l_link a e new =
        let i = tbl_index e.hash h.table_size in
        let slot = get_or h.table i [] in
        let after = assign h.entries a e in
        let elsewhere : map after slot ≡ get_or (entry_slots h.entries h.table) i [] =
          map-assign_out h.entries a e slot (omega (arith, occurs-slot-le a h.table i))
          ∙ sym (get_or-entry_slots h.entries h.table i) in
        ap (λ t. record (view h) { table = t; nentries = inc h.nentries })
          (entry_slots-set after h.table i (a ∷ slot)
            ∙ ap (λ r. set r i (map after (a ∷ slot)))
                (entry_slots-assign_out h.entries a e h.table new)
            ∙ ap (λ r. set (entry_slots h.entries h.table) i (r ∷ map after slot))
                (assign_self h.entries a e)
            ∙ ap (λ r. set (entry_slots h.entries h.table) i (e ∷ r)) elsewhere)

    -- Writing a value where the walk ends is the overwriting of hashtbl.c.
    pub view-overwrite :
        (k v : Ptr) (a : Addr)
        → occurs a (flatten h.table) ≤ 1
        → l_find_entry h (h.hash_fn k) k ≡ some a
        → view (record h { entries = assign h.entries a (record (h.entries a) { val = v }) })
          ≡ overwrite (view h) k v
    unfolding l_find_entry
    view-overwrite k v a once found =
        let i = tbl_index (h.hash_fn k) h.table_size in
        let slot = get_or h.table i [] in
        let in_slot : occurs a slot ≤ 1 = omega (arith, occurs-slot-le a h.table i) in
        let inside = (find_node-occurs (l_matches h (h.hash_fn k) k) slot a in_slot found).0 in
        let e = record (h.entries a) { val = v } in
        ap (λ t. record (view h) { table = t })
          (entry_slots-assign h.entries a e h.table i once inside
            ∙ ap (λ r. set (entry_slots h.entries h.table) i r)
                (map-assign_first h.entries (matches (view h) (h.hash_fn k) k) v a slot in_slot
                    found
                  ∙ ap (assign_first (matches (view h) (h.hash_fn k) k) v)
                      (sym (get_or-entry_slots h.entries h.table i))))

    -- The array without the entry found is the one that hashtbl.c leaves.
    pub view-unlinked :
        (k : Ptr)
        → entry_slots h.entries (
            set h.table
              (tbl_index (h.hash_fn k) h.table_size)
              (unlink_node (l_matches h (h.hash_fn k) k) (l_tbl_entry h (h.hash_fn k))))
          ≡ (unlinked (view h) (λ _. none) k).table
    view-unlinked k =
        let i = tbl_index (h.hash_fn k) h.table_size in
        let slot = get_or h.table i [] in
        let test = matches (view h) (h.hash_fn k) k in
        entry_slots-set h.entries h.table i (unlink_node (l_matches h (h.hash_fn k) k) slot)
        ∙ ap (λ r. set (entry_slots h.entries h.table) i r)
            (unlink_first-map h.entries test slot
              ∙ ap (unlink_first test) (sym (get_or-entry_slots h.entries h.table i)))
