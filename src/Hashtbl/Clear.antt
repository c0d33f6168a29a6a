-- ===== src/Hashtbl/Clear.antt =====
-- `hashtbl_clear` and `hashtbl_delete`: every entry is released exactly once.
use cpp_example_code.Base.{
  ℕ, ◌-◌, ◌≤◌, ◌<◌, ◌≡◌, refl, sym, ap, ◌∙◌, Option, none, List, [], ◌∷◌, ◌++◌, flatten, arith,
}
use mathlib.Core.List.{append_assoc}
use cpp_example_code.Base.Lists.{length, length-append, replicate}
use cpp_example_code.Hashtbl.State.{
  Ptr, Chain, Call, free_table, free_handle, Hashtbl, ulong_mod, dec,
}
use cpp_example_code.Hashtbl.Ops.{release, clear_chain, clear_table, clear, delete}
use cpp_example_code.Hashtbl.Slots.{Stores-replicate}
use cpp_example_code.Hashtbl.Resize.{Models, client}

module _ {D : Type 0} (h : Hashtbl D) where
  -- the calls for a list of entries, in order
  abbrev pub release_all : Chain → List Call
  release_all [] = []
  release_all (e ∷ c) = release h e ++ release_all c

  release_all-append : (a b : Chain) → release_all (a ++ b) ≡ release_all a ++ release_all b
  release_all-append [] b = refl
  release_all-append (e ∷ a) b =
      ap (λ r. release h e ++ r) (release_all-append a b)
      ∙ sym (append_assoc (release h e) (release_all a) (release_all b))

  clear_chain_lem :
      (c : Chain) (n : ℕ)
      → length c ≤ n
      → n < ulong_mod
      → clear_chain h c n ≡ (n - length c, release_all c)
  unfolding clear_chain
  clear_chain_lem [] n le lt = ground arith
  clear_chain_lem (e ∷ c) n le lt =
      let step : dec n ≡ n - 1 = omega arith in
      rw (step, clear_chain_lem c (n - 1) (omega arith) (omega arith)) (ground arith)

  clear_table_lem :
      (t : List Chain) (n : ℕ)
      → length (flatten t) ≤ n
      → n < ulong_mod
      → clear_table h t n
        ≡ (replicate (length t) [], n - length (flatten t), release_all (flatten t))
  unfolding clear_table flatten
  clear_table_lem [] n le lt = ground arith
  clear_table_lem (c ∷ t) n le lt =
      let split = length-append c (flatten t) in
      rw
        (
          clear_chain_lem c n (omega arith) lt,
          clear_table_lem t (n - length c) (omega arith) (omega arith),
          release_all-append c (flatten t),
        )
        (ground (arith, split))

  -- What clearing promises: an empty, well-formed table of the same size, and the calls that
  -- release every entry once, in the array's order.
  pub record Cleared (out : Hashtbl D × List Call) : Type 0 where
    pub models : Models out.0 (λ _. none)
    pub counted : out.0.nentries ≡ 0
    pub sized : out.0.table_size ≡ h.table_size
    pub same_client : client out.0 ≡ client h
    pub releases : out.1 ≡ release_all (flatten h.table)

  clear_lem :
      (f : Ptr → Option Ptr)
      → Models h f
      → clear h ≡ (
        record h { table = replicate h.table_size []; nentries = 0 },
        release_all (flatten h.table),
      )
  unfolding clear
  clear_lem f m =
      let zero_left : h.nentries - length (flatten h.table) ≡ 0 = omega (arith, m.stores.entries) in
      rw
        (
          clear_table_lem h.table h.nentries (omega (arith, m.stores.entries)) m.fits,
          zero_left,
          m.stores.width,
        )
        refl

  -- `hashtbl_clear` empties the table, keeps its size, and releases each entry once.
  pub clear-Cleared : (f : Ptr → Option Ptr) → Models h f → Cleared (clear h)
  clear-Cleared f m = rw (clear_lem f m) (record {
    models = record {
      keyed = m.keyed;
      size = m.size;
      stores = Stores-replicate m.keyed h.table_size;
      fits = omega arith;
    };
    counted = refl;
    sized = refl;
    same_client = refl;
    releases = refl;
  })

  -- `hashtbl_delete` releases each entry once, then the array, then the handle.
  pub delete-release_all :
      (f : Ptr → Option Ptr)
      → Models h f
      → delete h ≡ release_all (flatten h.table) ++ (free_table ∷ free_handle ∷ [])
  unfolding delete
  delete-release_all f m = rw (clear_lem f m) refl
