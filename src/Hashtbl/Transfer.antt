-- ===== src/Hashtbl/Transfer.antt =====
-- `link_entry`, and the loops of `hashtbl_resize` that move every entry to the new array.
use cpp_example_code.Base.{
  ℕ, ◌+◌, ◌≤◌, ◌<◌, ◌≡◌, refl, ◌∙◌, sym, Option, none, some, List, [], ◌∷◌, ◌++◌, flatten, arith,
}
use native.Mathlib.Nat.{add-zero}
use cpp_example_code.Base.Lists.{length}
use cpp_example_code.Hashtbl.State.{Ptr, Entry, Chain, Hashtbl, ulong_mod}
use cpp_example_code.Hashtbl.Ops.{link_entry, transfer_chain, transfer_table, fresh_table}
use cpp_example_code.Hashtbl.Read.{
  IsKeyed, read, copies, update, IsHashed, none-read, read-none, copies_congr,
}
use cpp_example_code.Hashtbl.Slots.{or_else, chain_at, Stores, Stores-set, Stores-replicate}
use cpp_example_code.Hashtbl.Flat.{IsFlat, Stores-IsFlat}

module _ {D : Type 0} where
  -- `h` keeps the key functions and the size of `tmp`, and stores `total` entries that mean `f`.
  pub record Holds (tmp : Hashtbl D) (total : ℕ) (f : Ptr → Option Ptr) (h : Hashtbl D)
      : Type 0 where
    pub stores : Stores tmp.hash_fn tmp.equals_fn tmp.table_size total f h.table
    pub counted : h.nentries ≡ total
    pub sized : h.table_size ≡ tmp.table_size

  Holds-ext :
      (h r : Hashtbl D) (m n : ℕ) (f g : Ptr → Option Ptr)
      → Holds h m f r
      → m ≡ n
      → ((q : Ptr) → f q ≡ g q)
      → Holds h n g r
  Holds-ext h r m n f g s e same = record {
    stores = record {
      width = s.stores.width;
      entries = s.stores.entries ∙ e;
      hashed = s.stores.hashed;
      placed = s.stores.placed;
      reads = λ q. s.stores.reads q ∙ same q;
    };
    counted = s.counted ∙ e;
    sized = s.sized;
  }

  module _ (h : Hashtbl D) (laws : IsKeyed h.hash_fn h.equals_fn) (pos : 0 < h.table_size) where
    -- Linking an entry under a key that is not there adds it, and counts it.
    pub link_entry-Holds :
        (total : ℕ) (f : Ptr → Option Ptr) (e : Entry)
        → Holds h total f h
        → e.hash ≡ h.hash_fn e.key
        → f e.key ≡ none
        → total + 1 < ulong_mod
        → Holds h (total + 1) (update h.equals_fn f e.key (some e.val)) (link_entry h e)
    unfolding link_entry read copies
    link_entry-Holds total f e s hashed absent fits =
        let old = chain_at h.hash_fn h.equals_fn h.table_size h.table e.key in
        let empty = none-read laws e.key old (s.stores.reads e.key ∙ absent) in
        simp hashed (record {
          stores =
              Stores-set laws h.table h.table_size total f s.stores pos e.key (some e.val) (e ∷ old)
                (total + 1) (hashed, s.stores.hashed _) (omega arith)
                (λ q. ground (arith, copies_congr laws e.key q old)) (λ q. refl);
          counted = omega (arith, s.counted);
          sized = refl;
        })

  -- Moving a chain of keys that the new array lacks adds them all.
  pub transfer_chain-Holds :
      (es : Chain) (tmp : Hashtbl D)
      → IsKeyed tmp.hash_fn tmp.equals_fn
      → 0 < tmp.table_size
      → (total : ℕ) (f : Ptr → Option Ptr) → Holds tmp total f tmp
      → IsHashed tmp.hash_fn es
      → ((q : Ptr) → copies tmp.equals_fn q es ≤ 1)
      → ((q : Ptr) → 0 < copies tmp.equals_fn q es → f q ≡ none)
      → total + length es < ulong_mod
      → Holds tmp
          (total + length es)
          (λ q. or_else (read tmp.equals_fn q es) (f q))
          (transfer_chain es tmp)
  unfolding transfer_chain link_entry read copies
  transfer_chain-Holds [] tmp laws pos total f s good once apart fits =
      Holds-ext tmp tmp total _ f _ s (sym (add-zero total)) (λ q. refl)
  transfer_chain-Holds (e ∷ es) tmp laws pos total f s (good, goods) once apart fits =
      let eq = tmp.equals_fn in
      let step =
        link_entry-Holds tmp laws pos total f e s good
          (apart e.key (ground (arith, laws.eq_refl e.key))) (omega arith) in
      let rest =
        transfer_chain-Holds es (link_entry tmp e) laws pos (total + 1)
          (update eq f e.key (some e.val))
          (record { stores = step.stores; counted = step.counted; sized = refl }) goods
          (λ q. omega (arith, once q)) (λ q h. ground (arith, once q, apart q)) (omega arith) in
      Holds-ext tmp _ _ _ _ _
        (record { stores = rest.stores; counted = rest.counted; sized = rest.sized }) (omega arith)
        (λ q. ground (arith, once q, read-none laws q es))

  transfer_chain-append :
      (a b : Chain) (tmp : Hashtbl D)
      → transfer_chain (a ++ b) tmp ≡ transfer_chain b (transfer_chain a tmp)
  unfolding transfer_chain
  transfer_chain-append [] b tmp = refl
  transfer_chain-append (e ∷ a) b tmp = transfer_chain-append a b (link_entry tmp e)

  -- The nested loops are one loop over the entries of the whole array.
  pub transfer_table-flatten :
      (t : List Chain) (tmp : Hashtbl D) → transfer_table t tmp ≡ transfer_chain (flatten t) tmp
  unfolding transfer_table transfer_chain flatten
  transfer_table-flatten [] tmp = refl
  transfer_table-flatten (c ∷ t) tmp =
      transfer_table-flatten t (transfer_chain c tmp)
      ∙ sym (transfer_chain-append c (flatten t) tmp)

  -- Moving the entries of a map to a fresh array gives a table for the map.
  pub transfer_flat-Holds :
      (h : Hashtbl D) (capacity : ℕ) (laws : IsKeyed h.hash_fn h.equals_fn)
      → 0 < capacity
      → (total : ℕ) (f : Ptr → Option Ptr) (c : Chain) → IsFlat laws f c
      → length c ≡ total
      → total < ulong_mod
      → Holds (fresh_table h capacity) total f (transfer_chain c (fresh_table h capacity))
  transfer_flat-Holds h capacity laws pos total f c flat counted fits =
      Holds-ext _ _ _ _ _ _
        (transfer_chain-Holds c (fresh_table h capacity) laws pos 0 (λ _. none)
          (record { stores = Stores-replicate laws capacity; counted = refl; sized = refl })
          flat.hashed flat.once (λ q _. refl) (omega arith))
        (omega arith) (λ q. ground (arith, flat.reads q))

  -- Moving a whole array to a fresh one keeps its map and its count.
  pub transfer_table-Holds :
      (h : Hashtbl D) (capacity : ℕ)
      → IsKeyed h.hash_fn h.equals_fn
      → 0 < capacity
      → (n total : ℕ) (f : Ptr → Option Ptr) → Stores h.hash_fn h.equals_fn n total f h.table
      → total < ulong_mod
      → Holds (fresh_table h capacity) total f (transfer_table h.table (fresh_table h capacity))
  transfer_table-Holds h capacity laws pos n total f s fits = rw transfer_table-flatten (
      transfer_flat-Holds h capacity laws pos total f (flatten h.table)
        (Stores-IsFlat laws n total f h.table s) s.entries fits)
