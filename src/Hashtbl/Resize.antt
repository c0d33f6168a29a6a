-- ===== src/Hashtbl/Resize.antt =====
-- The invariant of the table, and `hashtbl_resize`.
use cpp_example_code.Base.{
  ℕ, ◌≤◌, ◌<◌, ◌≡◌, refl, inl, inr, Bool, true, false, not, ◌&&◌, ◌∙◌, Option, List, [], arith,
}
use cpp_example_code.Base.Tests.{ltb, ◌==◌, if◌then◌else◌, Bool-cases}
use cpp_example_code.Base.Int.{ℤ}
use cpp_example_code.Hashtbl.State.{Ptr, Doubles, Call, Hashtbl, ulong_mod}
use cpp_example_code.Hashtbl.Capacity.{clamp_capacity}
use cpp_example_code.Hashtbl.Rounding.{IsSize, IsSize-pos, clamp_capacity-IsSize}
use cpp_example_code.Hashtbl.Ops.{
  transfer_table, fresh_table, table_calls, resize, resize_threshold,
}
use cpp_example_code.Hashtbl.Read.{IsKeyed}
use cpp_example_code.Hashtbl.Slots.{Stores}
use cpp_example_code.Hashtbl.Transfer.{transfer_table-Holds}

module _ {D : Type 0} where
  -- The table is well formed and stands for the map `f` from keys to values.
  pub record Models (h : Hashtbl D) (f : Ptr → Option Ptr) : Type 0 where
    pub keyed : IsKeyed h.hash_fn h.equals_fn
    pub size : IsSize h.table_size
    pub stores : Stores h.hash_fn h.equals_fn h.table_size h.nentries f h.table
    pub fits : h.nentries < ulong_mod

  -- The fields that are set once, by `hashtbl_create`.
  abbrev pub client : Hashtbl D → (Ptr → ℕ) × (Ptr → Ptr → Bool) × D × Bool × Bool × Bool
  client h =
      (h.hash_fn, h.equals_fn, h.max_load_factor, h.auto_resize, h.key_free_fn, h.val_free_fn)

module _ {D : Type 0} (fp : Doubles D) where
  -- the table after a successful growth to `capacity` slots
  abbrev pub rebuilt : Hashtbl D → ℕ → Hashtbl D
  rebuilt h capacity =
      let tmp = transfer_table h.table (fresh_table h capacity) in
      record h {
        table = tmp.table;
        table_size = tmp.table_size;
        nentries = tmp.nentries;
        resize_threshold = resize_threshold fp capacity h.max_load_factor;
      }

  pub rebuilt-Models :
      (h : Hashtbl D) (f : Ptr → Option Ptr) (capacity : ℕ)
      → IsKeyed h.hash_fn h.equals_fn
      → (n : ℕ) → Stores h.hash_fn h.equals_fn n h.nentries f h.table
      → h.nentries < ulong_mod
      → IsSize capacity
      → Models (rebuilt h capacity) f
        × ((rebuilt h capacity).nentries ≡ h.nentries)
        × ((rebuilt h capacity).table_size ≡ capacity)
  rebuilt-Models h f capacity keyed n s fits size =
      let moved =
        transfer_table-Holds h capacity keyed (IsSize-pos capacity size) n h.nentries f s fits in
      (
        record {
          keyed = keyed;
          size = rw moved.sized size;
          stores = rw (moved.sized, moved.counted) moved.stores;
          fits = rw moved.counted fits;
        },
        moved.counted,
        moved.sized,
      )

  -- The outcome of a resize: the size is enough already, the array cannot be allocated, or it is
  -- rebuilt.
  pub data Resized (granted : Bool) (h : Hashtbl D) (capacity : ℕ)
      : ℕ × Hashtbl D × List Call → Type 0 where
    enough : capacity ≤ h.table_size → Resized granted h capacity (0, h, [])
    refused : h.table_size < capacity → granted ≡ false → Resized granted h capacity (1, h, [])
    moved :
        h.table_size < capacity
        → granted ≡ true
        → Resized granted h capacity (0, rebuilt h capacity, table_calls h)

  pub resize_cases :
      (granted : Bool) (h : Hashtbl D) (requested : ℤ)
      → Resized granted h (clamp_capacity requested) (resize fp granted h requested)
  unfolding resize
  resize_cases granted h requested =
      let capacity = clamp_capacity requested in
      elim (Bool-cases (ltb capacity h.table_size)) [
        | inl less ↦ rw less (enough (ground arith))
        | inr ge ↦ rw ge (elim (Bool-cases (capacity == h.table_size)) [
          | inl same ↦ rw same (enough (ground arith))
          | inr other ↦ rw other (elim (Bool-cases granted) [
            | inl g ↦ rw g (moved (ground arith) refl)
            | inr g ↦ rw g (refused (ground arith) refl)
          ])
        ])
      ]

  -- What a resize promises: the map, the count and the client's functions stay; the size becomes
  -- the clamped request if that is larger and memory is granted, and the result is 1 exactly if
  -- it is larger and memory is refused.
  pub record KeepsMap (granted : Bool) (h : Hashtbl D) (f : Ptr → Option Ptr) (capacity : ℕ)
      (out : ℕ × Hashtbl D × List Call) : Type 0 where
    pub models : Models out.1 f
    pub same_client : client out.1 ≡ client h
    pub counted : out.1.nentries ≡ h.nentries
    pub sized :
        out.1.table_size ≡ (if ltb h.table_size capacity && granted then capacity else h.table_size)
    pub returns : out.0 ≡ (if ltb h.table_size capacity && not granted then 1 else 0)

  Resized-KeepsMap :
      (granted : Bool) (h : Hashtbl D) (f : Ptr → Option Ptr) (capacity : ℕ)
      → Models h f
      → IsSize capacity
      → {out : ℕ × Hashtbl D × List Call} → Resized granted h capacity out
      → KeepsMap granted h f capacity out
  Resized-KeepsMap granted h f capacity m size (enough le) = record {
    models = m;
    same_client = refl;
    counted = refl;
    sized = ground arith;
    returns = ground arith;
  }
  Resized-KeepsMap granted h f capacity m size (refused lt denied) = record {
    models = m;
    same_client = refl;
    counted = refl;
    sized = ground arith;
    returns = ground arith;
  }
  Resized-KeepsMap granted h f capacity m size (moved lt ok) =
      let (models, counted, sized) =
        rebuilt-Models h f capacity m.keyed h.table_size m.stores m.fits size in
      record {
        models = models;
        same_client = refl;
        counted = counted;
        sized = sized ∙ ground arith;
        returns = ground arith;
      }

  -- `hashtbl_resize` keeps the map, the count and the invariant whatever is requested and whether
  -- or not memory is granted; only a larger size that is granted changes the number of slots, and
  -- it returns 1 exactly when a larger size is refused.
  pub resize-KeepsMap :
      (granted : Bool) (h : Hashtbl D) (f : Ptr → Option Ptr) (requested : ℤ)
      → Models h f
      → KeepsMap granted h f (clamp_capacity requested) (resize fp granted h requested)
  resize-KeepsMap granted h f requested m =
      Resized-KeepsMap granted h f (clamp_capacity requested) m (clamp_capacity-IsSize requested)
        (resize_cases granted h requested)
