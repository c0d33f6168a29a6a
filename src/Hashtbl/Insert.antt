-- ===== src/Hashtbl/Insert.antt =====
-- `hashtbl_insert`, `hashtbl_lookup` and their automatic resize, against the map.
use cpp_example_code.Base.{
  ℕ, ◌+◌, ◌≤◌, ◌<◌, ◌≡◌, refl, sym, ap, ◌∙◌, ◌⊎◌, inl, inr, Bool, true, false, not, ◌&&◌, ◌||◌,
  Option, none, some, List, [], ◌∷◌, arith,
}
use cpp_example_code.Base.Tests.{leb, if◌then◌else◌, Bool-cases, Option-cases}
use cpp_example_code.Hashtbl.State.{Ptr, null, Doubles, Entry, Call, val_free, Hashtbl, ulong_mod}
use cpp_example_code.Hashtbl.Rounding.{IsSize-pos}
use cpp_example_code.Hashtbl.Ops.{
  tbl_entry, find_entry, grow, doubled, insert, lookup, link_entry, overwrite,
}
use cpp_example_code.Hashtbl.Read.{
  update, find_first-read, find_first-none, read-none, read-assign_first, copies-assign_first,
  length-assign_first, assign_first-IsHashed,
}
use cpp_example_code.Hashtbl.Slots.{Stores-set}
use cpp_example_code.Hashtbl.Transfer.{link_entry-Holds}
use cpp_example_code.Hashtbl.Resize.{Models, client, resize-KeepsMap}

abbrev pub is_some : Option Ptr → Bool
is_some none = false
is_some (some _) = true

abbrev pub or_null : Option Ptr → Ptr
or_null none = null
or_null (some v) = v

module _ {D : Type 0} where
  -- `find_entry` finds an entry exactly where the map has a value.
  pub find_entry-cases :
      (h : Hashtbl D) (f : Ptr → Option Ptr) (k : Ptr)
      → Models h f
      → ((find_entry h (h.hash_fn k) k ≡ none) × (f k ≡ none))
        ⊎ ((e : Entry) × (find_entry h (h.hash_fn k) k ≡ some e)
            × (f k ≡ some e.val)
            × (h.equals_fn e.key k ≡ true))
  unfolding find_entry
  find_entry-cases h f k m =
      let c = tbl_entry h (h.hash_fn k) in
      let hashed = m.stores.hashed _ in
      elim (Option-cases (find_entry h (h.hash_fn k) k)) [
        | inl e ↦ inl (
          e,
          sym (m.stores.reads k) ∙ read-none m.keyed k c (find_first-none m.keyed k c hashed e),
        )
        | inr (e, found) ↦
            let (value, same) = find_first-read m.keyed k c e hashed found in
            inr (e, found, sym (m.stores.reads k) ∙ value, same)
      ]

  -- `hashtbl_lookup` returns the map's value at the key, and NULL where it has none.
  pub lookup-Models :
      (h : Hashtbl D) (f : Ptr → Option Ptr) (k : Ptr) → Models h f → lookup h k ≡ or_null (f k)
  unfolding lookup
  lookup-Models h f k m = elim (find_entry-cases h f k m) [
    | inl (absent, none_there) ↦ rw (absent, lookup, none_there)
    | inr (e, found, value, same) ↦ rw (found, lookup, value)
  ]

module _ {D : Type 0} (h : Hashtbl D) (f : Ptr → Option Ptr) (k v : Ptr) where
  pub overwritten-Models :
      (e : Entry)
      → Models h f
      → find_entry h (h.hash_fn k) k ≡ some e
      → Models (overwrite h k v) (update h.equals_fn f k (some v))
  unfolding find_entry
  overwritten-Models e m found =
      let c = tbl_entry h (h.hash_fn k) in
      let hashed = m.stores.hashed _ in
      record {
        keyed = m.keyed;
        size = m.size;
        stores =
            Stores-set m.keyed h.table h.table_size h.nentries f m.stores (IsSize-pos _ m.size) k
              (some v) _ h.nentries (assign_first-IsHashed m.keyed k v c hashed)
              (omega (arith, length-assign_first m.keyed k v c))
              (λ q. omega (arith, copies-assign_first m.keyed k q v c))
              (λ q. read-assign_first m.keyed k q v c e hashed found);
        fits = m.fits;
      }

module _ {D : Type 0} (h : Hashtbl D) (f : Ptr → Option Ptr) where
  -- A new entry under a key that is not there is added to the map and counted.
  pub link_entry-Models :
      (e : Entry)
      → Models h f
      → e.hash ≡ h.hash_fn e.key
      → f e.key ≡ none
      → h.nentries + 1 < ulong_mod
      → Models (link_entry h e) (update h.equals_fn f e.key (some e.val))
        × ((link_entry h e).nentries ≡ h.nentries + 1)
  unfolding link_entry
  link_entry-Models e m hashed absent fits =
      let linked =
        link_entry-Holds h m.keyed (IsSize-pos _ m.size) h.nentries f e
          (record { stores = m.stores; counted = refl; sized = refl }) hashed absent fits in
      (
        record {
          keyed = m.keyed;
          size = m.size;
          stores = rw linked.counted linked.stores;
          fits = omega (arith, linked.counted);
        },
        linked.counted,
      )

module _ {D : Type 0} (fp : Doubles D) where
  -- The automatic resize keeps the map, the count and the client's fields.
  pub grow-Models :
      (granted : Bool) (h : Hashtbl D) (f : Ptr → Option Ptr)
      → Models h f
      → Models (grow fp granted h).0 f
        × (client (grow fp granted h).0 ≡ client h)
        × ((grow fp granted h).0.nentries ≡ h.nentries)
        × (h.table_size ≤ (grow fp granted h).0.table_size)
  unfolding grow
  grow-Models granted h f m =
      elim (Bool-cases (h.auto_resize && leb h.resize_threshold h.nentries)) [
        | inl full ↦
            let kept = resize-KeepsMap fp granted h f (doubled fp h.table_size) m in
            rw full (kept.models, kept.same_client, kept.counted, ground (arith, kept.sized))
        | inr room ↦ rw room (m, refl, refl, omega arith)
      ]

  module _ (h : Hashtbl D) (f : Ptr → Option Ptr) (k v : Ptr) where
    -- the new value is stored: under a key that is there already, or in a new entry
    abbrev pub stored : Bool → Bool
    stored allocated = is_some (f k) || allocated

    -- What an insertion promises of its result, the new table and the calls.
    pub record Inserted (allocated : Bool) (out : ℕ × Hashtbl D × List Call) : Type 0 where
      pub returns : out.0 ≡ (if stored allocated then 0 else 1)
      pub models : Models out.1 (if stored allocated then update h.equals_fn f k (some v) else f)
      pub same_client : client out.1 ≡ client h
      pub counted :
          out.1.nentries ≡ (if not (is_some (f k)) && allocated then h.nentries + 1 else h.nentries)
      pub frees :
          (old : Ptr) → f k ≡ some old → out.2 ≡ (if h.val_free_fn then val_free old ∷ [] else [])

    abbrev new_entry : Entry
    new_entry = record { key = k; val = v; hash = h.hash_fn k }

    -- the branch for a new key, from the table `g` that the automatic resize leaves
    absent-Inserted :
        (allocated : Bool) (g : Hashtbl D) (calls : List Call)
        → f k ≡ none
        → Models g f
        → client g ≡ client h
        → g.nentries ≡ h.nentries
        → h.nentries + 1 < ulong_mod
        → Inserted allocated
            (if allocated then (0, link_entry g new_entry, calls) else (1, g, calls))
    unfolding link_entry
    absent-Inserted false g calls absent m same counted fits = record {
      returns = rw absent refl;
      models = rw absent m;
      same_client = same;
      counted = rw absent counted;
      frees = λ old there. cc;
    }
    absent-Inserted true g calls absent m same counted fits =
        let hash : h.hash_fn k ≡ g.hash_fn k = ap (λ c. c.0 k) (sym same) in
        let equals : g.equals_fn ≡ h.equals_fn = ap (λ c. c.1) same in
        let (models, more) = link_entry-Models g f new_entry m hash absent (omega arith) in
        record {
          returns = rw absent refl;
          models = rw (absent, ← equals) models;
          same_client = same;
          counted = rw absent (more ∙ ap (λ n. n + 1) counted);
          frees = λ old there. cc;
        }

    -- `hashtbl_insert` stores the value under its key, replacing and freeing the value that an
    -- equal key had; with a new key it adds one entry, and where that cannot be allocated it
    -- returns 1 and the map stays. All holds whether or not the automatic resize succeeds.
    pub insert-Inserted :
        (granted allocated : Bool)
        → Models h f
        → h.nentries + 1 < ulong_mod
        → Inserted allocated (insert fp granted allocated h k v)
    unfolding insert
    insert-Inserted granted allocated m fits =
        let grown = grow-Models granted h f m in
        elim (find_entry-cases h f k m) [
          | inl (missing, absent) ↦
              rw (missing, insert)
                (absent-Inserted allocated (grow fp granted h).0 (grow fp granted h).1 absent
                  grown.0 grown.1 grown.2 fits)
          | inr (e, found, value, same) ↦
              rw (found, insert)
                (record {
                  returns = rw value refl;
                  models = rw value (overwritten-Models h f k v e m found);
                  same_client = refl;
                  counted = rw value refl;
                  frees = λ old there. ground arith;
                })
        ]
