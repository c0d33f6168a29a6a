-- ===== src/LinkedHashtbl/Create.antt =====
-- `l_hashtbl_create`: the table that it returns and its failures.
use cpp_example_code.Base.{
  ℕ, ◌≡◌, refl, Bool, true, false, Option, none, some, List, [], ◌∷◌, arith,
}
use cpp_example_code.Base.Tests.{ltb, ◌==◌}
use cpp_example_code.Base.Int.{ℤ}
use cpp_example_code.Base.Lists.{replicate}
use cpp_example_code.Hashtbl.State.{Ptr, Doubles, Entry, Call, free_handle}
use cpp_example_code.Hashtbl.Capacity.{clamp_capacity}
use cpp_example_code.Hashtbl.Rounding.{IsSize-pos, clamp_capacity-IsSize}
use cpp_example_code.Hashtbl.Ops.{clamp_load_factor, resize_threshold}
use cpp_example_code.Hashtbl.Read.{IsKeyed}
use cpp_example_code.Hashtbl.Create.{hash_or_direct, equals_or_direct}
use cpp_example_code.LinkedHashtbl.State.{Addr, head, Links, Linked}
use cpp_example_code.LinkedHashtbl.Ring.{list_init, list_init-IsRing}
use cpp_example_code.LinkedHashtbl.Ops.{forwards, place, l_resize, l_create}
use cpp_example_code.LinkedHashtbl.View.{Keeps}
use cpp_example_code.LinkedHashtbl.Change.{settings}
use cpp_example_code.LinkedHashtbl.Clear.{empty-Keeps}
use cpp_example_code.LinkedHashtbl.Walk.{Segment-walk}

module _ {D : Type 0} (fp : Doubles D) where
  module _ (links : Links) (entries : Addr → Entry) (requested : ℤ) (factor : D)
      (auto access : Bool) (hash : Option (Ptr → ℕ)) (equals : Option (Ptr → Ptr → Bool))
      (kf vf : Bool) where
    -- the handle before its first resize
    abbrev blank : Linked D
    blank = record {
      links = list_init links;
      entries = entries;
      max_load_factor = clamp_load_factor fp factor;
      hash_fn = hash_or_direct hash;
      equals_fn = equals_or_direct equals;
      nentries = 0;
      table_size = 0;
      resize_threshold = 0;
      auto_resize = auto;
      access_order = access;
      key_free_fn = kf;
      val_free_fn = vf;
      table = [];
    }

    -- the handle after it
    abbrev built : Linked D
    built =
        let capacity = clamp_capacity requested in
        record blank {
          table = replicate capacity [];
          table_size = capacity;
          resize_threshold = resize_threshold fp capacity (clamp_load_factor fp factor);
        }

    forwards-blank : forwards blank ≡ some []
    forwards-blank =
        Segment-walk (list_init links) head [] 1 (list_init-IsRing links).ring refl (omega arith)

    blank_resized : l_resize fp true blank requested ≡ some (0, built, [])
    unfolding l_resize place
    blank_resized =
        let pos = IsSize-pos _ (clamp_capacity-IsSize requested) in
        let stays : ltb (clamp_capacity requested) 0 ≡ false = ground arith in
        let grows : (clamp_capacity requested == 0) ≡ false = ground arith in
        rw (stays, grows, forwards-blank, l_resize) refl

    blank_refused : l_resize fp false blank requested ≡ some (1, blank, [])
    unfolding l_resize
    blank_refused =
        let pos = IsSize-pos _ (clamp_capacity-IsSize requested) in
        let stays : ltb (clamp_capacity requested) 0 ≡ false = ground arith in
        let grows : (clamp_capacity requested == 0) ≡ false = ground arith in rw (stays, grows) refl

    -- What a creation promises: with memory for the handle and the array, a well-formed table without
    -- entries, of the clamped size; without memory for the handle NULL; without memory for the array
    -- NULL, after the handle has been given back.
    pub record LinkedCreated (create : Bool → Bool → Option (Option (Linked D) × List Call))
        : Type 0 where
      pub handle : Linked D
      pub returns : create true true ≡ some (some handle, [])
      pub keeps : Keeps handle [] (λ _. none)
      pub counted : handle.nentries ≡ 0
      pub sized : handle.table_size ≡ clamp_capacity requested
      pub same_settings : settings handle ≡ settings blank
      pub no_handle : (granted : Bool) → create granted false ≡ some (none, [])
      pub no_array : create false true ≡ some (none, free_handle ∷ [])

    -- `l_hashtbl_create` does what `LinkedCreated` says, whatever the handle's memory holds.
    pub l_create-LinkedCreated :
        IsKeyed (hash_or_direct hash) (equals_or_direct equals)
        → LinkedCreated (λ granted allocated.
          l_create fp granted allocated links entries requested factor auto access hash equals kf
            vf)
    unfolding l_create
    l_create-LinkedCreated laws =
        let size = clamp_capacity-IsSize requested in
        record {
          handle = built;
          returns = rw (blank_resized, l_create) refl;
          keeps = empty-Keeps (record built { links = links }) (clamp_capacity requested) laws size;
          counted = refl;
          sized = refl;
          same_settings = refl;
          no_handle = λ granted. refl;
          no_array = rw (blank_refused, l_create) refl;
        }
