-- ===== src/Hashtbl/Create.antt =====
-- `hashtbl_create`: the table that it returns and its failures.
use cpp_example_code.Base.{
  ℕ, ◌<◌, ◌≡◌, refl, ap, Bool, true, false, Option, none, some, List, [], ◌∷◌, arith,
}
use cpp_example_code.Base.Tests.{==→eq, ==_refl}
use cpp_example_code.Base.Int.{ℤ}
use cpp_example_code.Hashtbl.State.{Ptr, Doubles, Call, free_handle, Hashtbl}
use cpp_example_code.Hashtbl.Keys.{direct_hash, direct_equals}
use cpp_example_code.Hashtbl.Capacity.{clamp_capacity}
use cpp_example_code.Hashtbl.Rounding.{IsSize-pos, clamp_capacity-IsSize}
use cpp_example_code.Hashtbl.Ops.{create, clamp_load_factor, table_calls}
use cpp_example_code.Hashtbl.Read.{IsKeyed}
use cpp_example_code.Hashtbl.Slots.{Stores, Stores-replicate}
use cpp_example_code.Hashtbl.Resize.{
  Models, client, rebuilt, rebuilt-Models, Resized, enough, refused, moved, resize_cases,
}

-- The default key functions meet what the table asks of them.
pub direct-IsKeyed : IsKeyed direct_hash direct_equals
unfolding direct_equals
direct-IsKeyed = record {
  eq_refl = λ a. ==_refl a;
  eq_symm = λ a b. ground arith;
  eq_trans = λ a b c p q. ground arith;
  hash-eq = λ a b h. ap direct_hash (==→eq a b h);
}

abbrev pub hash_or_direct : Option (Ptr → ℕ) → Ptr → ℕ
hash_or_direct none = direct_hash
hash_or_direct (some f) = f

abbrev pub equals_or_direct : Option (Ptr → Ptr → Bool) → Ptr → Ptr → Bool
equals_or_direct none = direct_equals
equals_or_direct (some f) = f

module _ {D : Type 0} (fp : Doubles D) where
  -- with a larger size that is granted, a resize rebuilds the table
  Resized-rebuilt :
      (h : Hashtbl D) (capacity : ℕ) {out : ℕ × Hashtbl D × List Call}
      → Resized fp true h capacity out
      → h.table_size < capacity
      → out ≡ (0, rebuilt fp h capacity, table_calls h)
  Resized-rebuilt h capacity (enough le) lt = absurd (omega arith)
  Resized-rebuilt h capacity (refused _ e) lt = cc
  Resized-rebuilt h capacity (moved _ _) lt = refl

  Resized-refused :
      (h : Hashtbl D) (capacity : ℕ) {out : ℕ × Hashtbl D × List Call}
      → Resized fp false h capacity out
      → h.table_size < capacity
      → out ≡ (1, h, [])
  Resized-refused h capacity (enough le) lt = absurd (omega arith)
  Resized-refused h capacity (refused _ _) lt = refl
  Resized-refused h capacity (moved _ e) lt = cc

  module _ (requested : ℤ) (factor : D) (auto : Bool) (hash : Option (Ptr → ℕ))
      (equals : Option (Ptr → Ptr → Bool)) (kf vf : Bool) where
    -- the handle before its first resize
    abbrev blank : Hashtbl D
    blank = record {
      max_load_factor = clamp_load_factor fp factor;
      hash_fn = hash_or_direct hash;
      equals_fn = equals_or_direct equals;
      nentries = 0;
      table_size = 0;
      resize_threshold = 0;
      auto_resize = auto;
      key_free_fn = kf;
      val_free_fn = vf;
      table = [];
    }

    -- What a successful creation promises: an empty table with the clamped size, the client's
    -- functions or the defaults, and no call to the client.
    pub record Created (out : Option (Hashtbl D) × List Call) : Type 0 where
      pub handle : Hashtbl D
      pub returns : out ≡ (some handle, [])
      pub models : Models handle (λ _. none)
      pub counted : handle.nentries ≡ 0
      pub sized : handle.table_size ≡ clamp_capacity requested
      pub same_client : client handle ≡ client blank

    Stores-blank :
        IsKeyed (hash_or_direct hash) (equals_or_direct equals)
        → Stores (hash_or_direct hash) (equals_or_direct equals) 0 0 (λ _. none) []
    Stores-blank laws = Stores-replicate laws 0

    -- `hashtbl_create` with memory for the handle and the array returns a well-formed empty table.
    pub create-Created :
        IsKeyed (hash_or_direct hash) (equals_or_direct equals)
        → Created (create fp true true requested factor auto hash equals kf vf)
    unfolding create
    create-Created laws =
        let capacity = clamp_capacity requested in
        let size = clamp_capacity-IsSize requested in
        let resized =
          Resized-rebuilt blank capacity (resize_cases fp true blank requested)
            (IsSize-pos _ size) in
        let (models, counted, sized) =
          rebuilt-Models fp blank (λ _. none) capacity laws 0 (Stores-blank laws) (omega arith)
            size in
        record {
          handle = rebuilt fp blank capacity;
          returns = rw (resized, create) refl;
          models = models;
          counted = counted;
          sized = sized;
          same_client = refl;
        }

    -- Without memory for the handle `hashtbl_create` returns NULL; without memory for the array it
    -- gives the handle back first.
    pub create-null :
        (granted : Bool)
        → (create fp granted false requested factor auto hash equals kf vf ≡ (none, []))
          × (create fp false true requested factor auto hash equals kf vf
              ≡ (none, free_handle ∷ []))
    unfolding create
    create-null granted =
        let capacity = clamp_capacity requested in
        let resized =
          Resized-refused blank capacity (resize_cases fp false blank requested)
            (IsSize-pos _ (clamp_capacity-IsSize requested)) in
        (refl, rw (resized, create) refl)
