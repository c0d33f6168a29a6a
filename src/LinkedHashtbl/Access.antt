-- ===== src/LinkedHashtbl/Access.antt =====
-- `l_hashtbl_lookup`: the value, and what the access does to the order.
use cpp_example_code.Base.{
  ◌≤◌, ◌<◌, ◌≡◌, refl, sym, ap, ◌∙◌, ◌⊎◌, inl, inr, true, false, Option, none, some, List, ◌∷◌,
  flatten, map, arith,
}
use mathlib.Core.Option.{some-injective, none-ne-some}
use mathlib.Core.Path.{subst}
use cpp_example_code.Base.Tests.{if◌then◌else◌, Bool-cases, Option-cases}
use cpp_example_code.Hashtbl.State.{Ptr}
use cpp_example_code.Hashtbl.Capacity.{tbl_index}
use cpp_example_code.Hashtbl.Read.{none-read}
use cpp_example_code.Hashtbl.Flat.{IsFlat, Stores-IsFlat}
use cpp_example_code.Hashtbl.Insert.{find_entry-cases, or_null}
use cpp_example_code.LinkedHashtbl.State.{Addr, Linked}
use cpp_example_code.LinkedHashtbl.Ring.{
  occurs, erase, list_add_before, list_remove, list_add_before-IsRing, list_remove-IsRing,
  occurs-erase,
}
use cpp_example_code.LinkedHashtbl.Ops.{
  find_node, unlink_node, l_matches, l_tbl_entry, l_find_entry, record_access, l_lookup,
}
use cpp_example_code.LinkedHashtbl.Slots.{
  at_entry, flatten-entry_slots, find_node-occurs, occurs-slot-le,
}
use cpp_example_code.LinkedHashtbl.View.{view, Keeps, find_entry-view}
use cpp_example_code.LinkedHashtbl.Order.{IsFlat-same, holder_of, holder_none}

module _ {D : Type 0} where
  -- The node of `order` whose key is equal to `k`, whatever the bucket array says.
  abbrev pub holder : Linked D → Ptr → List Addr → Option Addr
  holder h k order = find_node (λ a. h.equals_fn (h.entries a).key k) order

  -- the order after an access to `k`
  abbrev pub accessed : Linked D → Ptr → List Addr → List Addr
  accessed h k order =
      if h.access_order
      then (elim (holder h k order) [ none ↦ order | some a ↦ a ∷ erase a order ])
      else order

  -- The table is as before but for the links, and quite as before in insertion order.
  abbrev pub OnlyLinks : Linked D → Linked D → Type 0
  OnlyLinks h after =
      (after ≡ record h { links = after.links }) × (h.access_order ≡ false → after ≡ h)

  module _ (h : Linked D) (order : List Addr) (f : Ptr → Option Ptr) (keeps : Keeps h order f) where
    -- The list's entries mean the map as well.
    pub order-IsFlat : IsFlat keeps.models.keyed f (map h.entries order)
    order-IsFlat = IsFlat-same h.entries keeps.models.keyed f (flatten h.table) order keeps.same (
        subst (λ c. IsFlat keeps.models.keyed f c) (flatten-entry_slots h.entries h.table)
          (Stores-IsFlat keeps.models.keyed h.table_size h.nentries f _ keeps.models.stores))

    pub once_in_array : (a : Addr) → occurs a (flatten h.table) ≤ 1
    once_in_array a = omega (arith, keeps.same a, keeps.ring.once a)

    pub found_in_slot :
        (k : Ptr) (a : Addr)
        → l_find_entry h (h.hash_fn k) k ≡ some a
        → (0 < occurs a (l_tbl_entry h (h.hash_fn k)))
          × (unlink_node (l_matches h (h.hash_fn k) k) (l_tbl_entry h (h.hash_fn k))
              ≡ erase a (l_tbl_entry h (h.hash_fn k)))
    unfolding l_find_entry
    found_in_slot k a there =
        find_node-occurs (l_matches h (h.hash_fn k) k) (l_tbl_entry h (h.hash_fn k)) a
          (omega (
            arith,
            once_in_array a,
            occurs-slot-le a h.table (tbl_index (h.hash_fn k) h.table_size),
          ))
          there

    -- The walk along a slot's chain finds the holder of the key, and finds none if the map has
    -- no value there.
    pub l_find_entry-cases :
        (k : Ptr)
        → ((l_find_entry h (h.hash_fn k) k ≡ none) × (f k ≡ none) × (holder h k order ≡ none))
          ⊎ ((a : Addr) × (l_find_entry h (h.hash_fn k) k ≡ some a)
              × (f k ≡ some (h.entries a).val)
              × (holder h k order ≡ some a)
              × (0 < occurs a order)
              × (0 < occurs a (l_tbl_entry h (h.hash_fn k))))
    l_find_entry-cases k =
        let seen = find_entry-view h (h.hash_fn k) k in
        elim (Option-cases (l_find_entry h (h.hash_fn k) k)) [
          | inl missing ↦ elim (find_entry-cases (view h) f k keeps.models) [
            | inl (_, absent) ↦ inl (
              missing,
              absent,
              holder_none h.entries keeps.models.keyed k order (
                  none-read keeps.models.keyed k (map h.entries order)
                    (order-IsFlat.reads k ∙ absent)),
            )
            | inr (e, found, value, same) ↦
                absurd (none-ne-some e (sym (seen ∙ ap (at_entry h.entries) missing) ∙ found))
          ]
          | inr (a, there) ↦ elim (find_entry-cases (view h) f k keeps.models) [
            | inl (missing, absent) ↦
                absurd
                  (none-ne-some (h.entries a) (sym missing ∙ seen ∙ ap (at_entry h.entries) there))
            | inr (e, found, value, same) ↦
                let entry : h.entries a ≡ e =
                  some-injective (h.entries a) e
                    (sym (seen ∙ ap (at_entry h.entries) there) ∙ found) in
                let in_slot = (found_in_slot k a there).0 in
                let in_order : 0 < occurs a order = omega (
                  arith,
                  keeps.same a,
                  occurs-slot-le a h.table (tbl_index (h.hash_fn k) h.table_size),
                ) in
                let equal : h.equals_fn (h.entries a).key k ≡ true =
                  ap (λ t. h.equals_fn t.key k) entry ∙ same in
                inr (
                  a,
                  there,
                  value ∙ ap (λ t. some t.val) (sym entry),
                  holder_of h.entries keeps.models.keyed k a order (order-IsFlat.once k) in_order
                      equal,
                  in_order,
                  in_slot,
                )
          ]
        ]

    moved-Keeps :
        (a : Addr)
        → 0 < occurs a order
        → Keeps
            (record h { links = list_add_before (list_remove h.links a) a })
            (a ∷ erase a order)
            f
    moved-Keeps a inside =
        let gone : occurs a (erase a order) ≡ 0 =
          ground (arith, occurs-erase a a order inside, keeps.ring.once a) in
        let proper : 0 < a = ground (arith, keeps.ring.headless) in
        record {
          ring =
              list_add_before-IsRing (list_remove h.links a) a (erase a order)
                (list_remove-IsRing h.links a order keeps.ring inside) gone proper;
          same = λ b. ground (arith, keeps.same b, occurs-erase b a order inside);
          models = keeps.models;
        }

    abbrev moved : Addr → Linked D
    moved a = record h { links = list_add_before (list_remove h.links a) a }

    record_access_moves : (a : Addr) → h.access_order ≡ true → record_access h a ≡ moved a
    unfolding record_access
    record_access_moves a e = ap (λ t. if t then moved a else h) e

    record_access_stays : (a : Addr) → h.access_order ≡ false → record_access h a ≡ h
    unfolding record_access
    record_access_stays a e = ap (λ t. if t then moved a else h) e

    record_access-Keeps :
        (k : Ptr) (a : Addr)
        → holder h k order ≡ some a
        → 0 < occurs a order
        → Keeps (record_access h a) (accessed h k order) f
    record_access-Keeps k a holds inside = elim (Bool-cases h.access_order) [
      | inl by_access ↦
          let e : accessed h k order ≡ a ∷ erase a order = simp (by_access, holds) refl in
          rw (record_access_moves a by_access, e) (moved-Keeps a inside)
      | inr by_insertion ↦
          let e : accessed h k order ≡ order = simp by_insertion refl in
          rw (record_access_stays a by_insertion, e) keeps
    ]

    record_access_entries : (a : Addr) → (record_access h a).entries ≡ h.entries
    unfolding record_access
    record_access_entries a = elim (Bool-cases h.access_order) [
      | inl e ↦ simp e refl
      | inr e ↦ simp e refl
    ]

    accessed_nobody : (k : Ptr) → holder h k order ≡ none → accessed h k order ≡ order
    accessed_nobody k nobody = elim (Bool-cases h.access_order) [
      | inl e ↦ simp (e, nobody) refl
      | inr e ↦ simp e refl
    ]

    record_access_links : (a : Addr) → OnlyLinks h (record_access h a)
    record_access_links a = elim (Bool-cases h.access_order) [
      | inl e ↦
          subst (OnlyLinks h) (sym (record_access_moves a e)) (refl, λ no. absurd (ground arith))
      | inr e ↦ subst (OnlyLinks h) (sym (record_access_stays a e)) (refl, λ no. refl)
    ]

    -- `l_hashtbl_lookup` returns the map's value at the key, NULL where it has none, and keeps the map;
    -- in access order the key's node comes to the front, otherwise the order stays; nothing but the links changes,
    -- and in insertion order nothing at all.
    pub l_lookup-Keeps :
        (k : Ptr)
        → ((l_lookup h k).0 ≡ or_null (f k))
          × Keeps (l_lookup h k).1 (accessed h k order) f
          × OnlyLinks h (l_lookup h k).1
    unfolding l_lookup
    l_lookup-Keeps k = elim (l_find_entry-cases k) [
      | inl (missing, absent, nobody) ↦
          rw (missing, absent, accessed_nobody k nobody, l_lookup) (refl, keeps, (refl, λ no. refl))
      | inr (a, there, value, holds, in_order, in_slot) ↦
          rw (there, value, l_lookup)
            (
              ap (λ e. (e a).val) (record_access_entries a),
              record_access-Keeps k a holds in_order,
              record_access_links a,
            )
    ]
