-- ===== src/Hashtbl/Remove.antt =====
-- `hashtbl_remove` against the map.
use cpp_example_code.Base.{ℕ, ◌+◌, ◌≡◌, refl, inl, inr, true, Option, none, some, List, [], arith}
use cpp_example_code.Base.Tests.{if◌then◌else◌}
use cpp_example_code.Hashtbl.State.{Ptr, Entry, Call, Hashtbl, dec}
use cpp_example_code.Hashtbl.Rounding.{IsSize-pos}
use cpp_example_code.Hashtbl.Chain.{unlink_first}
use cpp_example_code.Hashtbl.Ops.{tbl_entry, set_slot, matches, find_entry, remove_key, remove}
use cpp_example_code.Hashtbl.Read.{
  update, read-unlink_first, copies-unlink_first, length-unlink_first, unlink_first-IsHashed,
}
use cpp_example_code.Hashtbl.Slots.{Stores-set, home}
use cpp_example_code.Hashtbl.Flat.{length-slot-le}
use cpp_example_code.Hashtbl.Resize.{Models, client}
use cpp_example_code.Hashtbl.Freed.{FreedByRemoval, calls-Freed}
use cpp_example_code.Hashtbl.Insert.{is_some, find_entry-cases}

module _ {D : Type 0} (h : Hashtbl D) (f : Ptr → Option Ptr) (k : Ptr) where
  -- What a removal promises of its result, the new table and the calls.
  pub record Removed (out : ℕ × Hashtbl D × List Call) : Type 0 where
    pub returns : out.0 ≡ (if is_some (f k) then 0 else 1)
    pub models : Models out.1 (if is_some (f k) then update h.equals_fn f k none else f)
    pub same_client : client out.1 ≡ client h
    pub counted : out.1.nentries + (if is_some (f k) then 1 else 0) ≡ h.nentries
    pub absent : f k ≡ none → (out.1 ≡ h) × (out.2 ≡ [])
    pub frees :
        (old : Ptr)
        → f k ≡ some old
        → (e : Entry) × (e.val ≡ old)
          × (h.equals_fn e.key k ≡ true)
          × FreedByRemoval h.key_free_fn h.val_free_fn e out.2

  abbrev pub unlinked : Hashtbl D
  unlinked =
      let hv = h.hash_fn k in
      record h {
        table = set_slot h hv (unlink_first (matches h hv k) (tbl_entry h hv));
        nentries = dec h.nentries;
      }

  pub unlinked-Models :
      (e : Entry)
      → Models h f
      → find_entry h (h.hash_fn k) k ≡ some e
      → Models unlinked (update h.equals_fn f k none) × (dec h.nentries + 1 ≡ h.nentries)
  unfolding find_entry
  unlinked-Models e m found =
      let c = tbl_entry h (h.hash_fn k) in
      let i = home h.hash_fn h.equals_fn k h.table_size in
      let shorter = length-unlink_first m.keyed k c e found in
      let counted : dec h.nentries + 1 ≡ h.nentries =
        omega (arith, length-slot-le h.table i, m.stores.entries, m.fits) in
      (
        record {
          keyed = m.keyed;
          size = m.size;
          stores =
              Stores-set m.keyed h.table h.table_size h.nentries f m.stores (IsSize-pos _ m.size) k
                none _ (dec h.nentries) (unlink_first-IsHashed m.keyed k c (m.stores.hashed i))
                (omega arith) (λ q. omega (arith, copies-unlink_first m.keyed k q c))
                (λ q. read-unlink_first m.keyed k q c (m.stores.hashed i) (m.stores.placed q i).0);
          fits = omega (arith, m.fits);
        },
        counted,
      )

  -- `hashtbl_remove` returns 0 and clears the key, with one entry less, if the map has a value
  -- there, and frees the key and the value (if that is not NULL) as the table was told to, and the entry, each
  -- once and in this order; otherwise it returns 1, frees nothing and changes nothing.
  pub remove-Removed : Models h f → Removed (remove h k)
  unfolding remove remove_key find_entry
  remove-Removed m = elim (find_entry-cases h f k m) [
    | inl (missing, absent) ↦
        rw (missing, remove)
          (record {
            returns = rw absent refl;
            models = rw absent m;
            same_client = refl;
            counted = rw absent (omega arith);
            absent = λ _. (refl, refl);
            frees = λ old there. cc;
          })
    | inr (e, found, value, same) ↦
        let (models, counted) = unlinked-Models e m found in
        rw (found, remove)
          (record {
            returns = rw value refl;
            models = rw value models;
            same_client = refl;
            counted = rw value counted;
            absent = λ none_there. cc;
            frees = λ old there. (e, ground arith, same, calls-Freed h.key_free_fn _ e);
          })
  ]
