-- ===== src/LinkedHashtbl/Resize.antt =====
-- `l_hashtbl_resize`: a new array for the same list, the same order and the same map.
use cpp_example_code.Base.{
  ℕ, zero, suc, ◌+◌, ◌≤◌, ◌<◌, ◌≡◌, refl, sym, ap, ◌∙◌, inl, inr, Bool, true, false, ◌&&◌, not,
  Option, some, List, [], ◌∷◌, map, flatten, arith,
}
use mathlib.Core.Path.{subst}
use cpp_example_code.Base.Tests.{ltb, leb, ◌==◌, if◌then◌else◌, Bool-cases}
use cpp_example_code.Base.Lists.{length, get_or, set, replicate, length-set, length-replicate}
use cpp_example_code.Base.Int.{ℤ}
use cpp_example_code.Hashtbl.State.{Ptr, Doubles, Entry, Hashtbl, Call, ulong_mod}
use cpp_example_code.Hashtbl.Capacity.{tbl_index, clamp_capacity}
use cpp_example_code.Hashtbl.Rounding.{IsSize, IsSize-pos, clamp_capacity-IsSize}
use cpp_example_code.Hashtbl.Ops.{
  resize_threshold, link_entry, transfer_chain, fresh_table, doubled,
}
use cpp_example_code.Hashtbl.Slots.{tbl_index-lt, Stores}
use cpp_example_code.Hashtbl.Transfer.{transfer_flat-Holds}
use cpp_example_code.Hashtbl.Flat.{IsFlat}
use cpp_example_code.Hashtbl.Read.{IsKeyed}
use cpp_example_code.LinkedHashtbl.State.{Addr, Linked}
use cpp_example_code.LinkedHashtbl.Ring.{occurs, IsRing}
use cpp_example_code.LinkedHashtbl.Ops.{place, l_table_calls, l_resize, l_grow}
use cpp_example_code.LinkedHashtbl.Slots.{
  Slots, entry_slots, get_or-entry_slots, entry_slots-set, occurs-flatten-set, length-map,
}
use cpp_example_code.LinkedHashtbl.View.{view, Keeps}
use cpp_example_code.LinkedHashtbl.Access.{order-IsFlat}
use cpp_example_code.LinkedHashtbl.Change.{settings}
use cpp_example_code.LinkedHashtbl.Walk.{forwards-order, order-nentries}

occurs-place :
    (b : Addr) (e : Addr → Entry) (capacity : ℕ) (nodes : List Addr) (t : Slots)
    → 0 < capacity
    → length t ≡ capacity
    → occurs b (flatten (place e capacity nodes t)) ≡ occurs b nodes + occurs b (flatten t)
unfolding place
occurs-place b e capacity [] t pos width = omega arith
occurs-place b e capacity (a ∷ nodes) t pos width =
    let i = tbl_index (e a).hash capacity in
    let slot = get_or t i [] in
    omega (
      arith,
      occurs-place b e capacity nodes (set t i (a ∷ slot)) pos (length-set t i (a ∷ slot) ∙ width),
      occurs-flatten-set b t i (a ∷ slot) (omega (arith, tbl_index-lt (e a).hash capacity pos)),
    )

pub occurs-empty : (b : Addr) (n : ℕ) → occurs b (flatten (replicate n [])) ≡ 0
unfolding flatten
occurs-empty b zero = refl
occurs-empty b (suc n) = occurs-empty b n

pub empty_slots : (e : Addr → Entry) (n : ℕ) → entry_slots e (replicate n []) ≡ replicate n []
empty_slots e zero = refl
empty_slots e (suc n) = ap (λ t. [] ∷ t) (empty_slots e n)

module _ {D : Type 0} where
  -- Placing nodes is linking their entries one after the other, as hashtbl.c's resize does.
  place-transfer_chain :
      (e : Addr → Entry) (nodes : List Addr) (t : Slots) (tmp : Hashtbl D)
      → tmp.table ≡ entry_slots e t
      → entry_slots e (place e tmp.table_size nodes t) ≡ (transfer_chain (map e nodes) tmp).table
  unfolding place transfer_chain link_entry
  place-transfer_chain e [] t tmp same = sym same
  place-transfer_chain e (a ∷ nodes) t tmp same =
      let i = tbl_index (e a).hash tmp.table_size in
      place-transfer_chain e nodes (set t i (a ∷ get_or t i [])) (link_entry tmp (e a)) (
        ap (λ r. set r i (e a ∷ get_or r i [])) same
        ∙ ap (λ r. set (entry_slots e t) i (e a ∷ r)) (get_or-entry_slots e t i)
        ∙ sym (entry_slots-set e t i (a ∷ get_or t i [])))

  -- the table with a new array of `capacity` slots
  abbrev rebuilt : Linked D → List Addr → ℕ → ℕ → Linked D
  rebuilt h order capacity threshold = record h {
    table = place h.entries capacity order (replicate capacity []);
    table_size = capacity;
    resize_threshold = threshold;
  }

  rebuilt-Keeps :
      (h : Linked D) (order : List Addr) (f : Ptr → Option Ptr) (capacity threshold : ℕ)
      → IsRing h.links order
      → (laws : IsKeyed h.hash_fn h.equals_fn) → IsFlat laws f (map h.entries order)
      → length order ≡ h.nentries
      → h.nentries < ulong_mod
      → IsSize capacity
      → Keeps (rebuilt h order capacity threshold) order f
  rebuilt-Keeps h order f capacity threshold ring laws flat counted fits size =
      let pos = IsSize-pos capacity size in
      let slots : Slots = replicate capacity [] in
      let fresh = fresh_table (view h) capacity in
      let moved =
        transfer_flat-Holds (view h) capacity laws pos h.nentries f (map h.entries order) flat
          (length-map h.entries order ∙ counted) fits in
      let same =
        place-transfer_chain h.entries order slots fresh (sym (empty_slots h.entries capacity)) in
      record {
        ring = ring;
        same = λ b. omega (
          arith,
          occurs-place b h.entries capacity order slots pos (length-replicate capacity []),
          occurs-empty b capacity,
        );
        models = record {
          keyed = laws;
          size = size;
          stores =
              subst (λ t. Stores h.hash_fn h.equals_fn capacity h.nentries f t) (sym same)
                moved.stores;
          fits = fits;
        };
      }

module _ {D : Type 0} (fp : Doubles D) where
  -- What a resize of a linked table promises: it comes to an end, keeps the order, the map, the count
  -- and the client's settings; the size becomes the clamped request if that is larger and memory is
  -- granted, and the result is 1 exactly if it is larger and memory is refused.
  pub record LinkedResized (granted : Bool) (h : Linked D) (order : List Addr)
      (f : Ptr → Option Ptr) (capacity : ℕ) (out : Option (ℕ × Linked D × List Call)) : Type 0 where
    pub status : ℕ
    pub after : Linked D
    pub calls : List Call
    pub returns : out ≡ some (status, after, calls)
    pub keeps : Keeps after order f
    pub same_settings : settings after ≡ settings h
    pub same_entries : after.entries ≡ h.entries
    pub counted : after.nentries ≡ h.nentries
    pub sized :
        after.table_size ≡ (if ltb h.table_size capacity && granted then capacity else h.table_size)
    pub refused : status ≡ (if ltb h.table_size capacity && not granted then 1 else 0)

  -- `l_hashtbl_resize` keeps the order and the map, whatever is requested and whether or not memory
  -- is granted.
  pub l_resize-LinkedResized :
      (granted : Bool) (h : Linked D) (order : List Addr) (f : Ptr → Option Ptr) (requested : ℤ)
      → Keeps h order f
      → LinkedResized granted h order f (clamp_capacity requested) (l_resize fp granted h requested)
  unfolding l_resize
  l_resize-LinkedResized granted h order f requested keeps =
      let capacity = clamp_capacity requested in
      elim (Bool-cases (ltb capacity h.table_size)) [
        | inl less ↦ rw less (kept (ground arith))
        | inr ge ↦ rw ge (elim (Bool-cases (capacity == h.table_size)) [
          | inl same ↦ rw same (kept (ground arith))
          | inr other ↦ rw other (elim (Bool-cases granted) [
            | inl ok ↦ rw (ok, forwards-order h order f keeps) (grown (ground arith))
            | inr bad ↦ rw bad (denied (ground arith))
          ])
        ])
      ]
    where
      kept :
          clamp_capacity requested ≤ h.table_size
          → LinkedResized granted h order f (clamp_capacity requested) (some (0, h, []))
      kept le = record {
        status = 0;
        after = h;
        calls = [];
        returns = refl;
        keeps = keeps;
        same_settings = refl;
        same_entries = refl;
        counted = refl;
        sized = ground arith;
        refused = ground arith;
      }

      grown :
          h.table_size < clamp_capacity requested
          → LinkedResized true h order f (clamp_capacity requested) (
              some (
                0,
                rebuilt h order
                    (clamp_capacity requested)
                    (resize_threshold fp (clamp_capacity requested) h.max_load_factor),
                l_table_calls h,
              ))
      grown more = record {
        status = 0;
        after =
            rebuilt h order (clamp_capacity requested)
              (resize_threshold fp (clamp_capacity requested) h.max_load_factor);
        calls = l_table_calls h;
        returns = refl;
        keeps =
            rebuilt-Keeps h order f (clamp_capacity requested)
              (resize_threshold fp (clamp_capacity requested) h.max_load_factor) keeps.ring
              keeps.models.keyed (order-IsFlat h order f keeps) (order-nentries h order f keeps)
              keeps.models.fits (clamp_capacity-IsSize requested);
        same_settings = refl;
        same_entries = refl;
        counted = refl;
        sized = ground arith;
        refused = ground arith;
      }

      denied :
          h.table_size < clamp_capacity requested
          → LinkedResized false h order f (clamp_capacity requested) (some (1, h, []))
      denied more = record {
        status = 1;
        after = h;
        calls = [];
        returns = refl;
        keeps = keeps;
        same_settings = refl;
        same_entries = refl;
        counted = refl;
        sized = ground arith;
        refused = ground arith;
      }

  -- What growing does: nothing to the order, the map, the count, the entries and the settings.
  pub record Grown (h : Linked D) (order : List Addr) (f : Ptr → Option Ptr)
      (out : Option (Linked D × List Call)) : Type 0 where
    pub after : Linked D
    pub calls : List Call
    pub returns : out ≡ some (after, calls)
    pub keeps : Keeps after order f
    pub same_settings : settings after ≡ settings h
    pub same_entries : after.entries ≡ h.entries
    pub counted : after.nentries ≡ h.nentries

  pub l_grow-Grown :
      (granted : Bool) (h : Linked D) (order : List Addr) (f : Ptr → Option Ptr)
      → Keeps h order f
      → Grown h order f (l_grow fp granted h)
  unfolding l_grow
  l_grow-Grown granted h order f keeps =
      elim (Bool-cases (h.auto_resize && leb h.resize_threshold h.nentries)) [
        | inl full ↦
            let r = l_resize-LinkedResized granted h order f (doubled fp h.table_size) keeps in
            record {
              after = r.after;
              calls = r.calls;
              returns = rw (full, r.returns) refl;
              keeps = r.keeps;
              same_settings = r.same_settings;
              same_entries = r.same_entries;
              counted = r.counted;
            }
        | inr room ↦ record {
          after = h;
          calls = [];
          returns = rw room refl;
          keeps = keeps;
          same_settings = refl;
          same_entries = refl;
          counted = refl;
        }
      ]
