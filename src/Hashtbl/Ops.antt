-- ===== src/Hashtbl/Ops.antt =====
-- The operations of c-hacks/src/hashtbl.c. What `malloc_fn` answers is an argument, one for each
-- call; a changed table is returned beside the result and the calls made.
use cpp_example_code.Base.{
  ℕ, ◌+◌, ◌*◌, Bool, true, false, ◌&&◌, not, Option, none, some, List, [], ◌∷◌, ◌++◌,
}
use cpp_example_code.Base.Tests.{ltb, leb, ◌==◌, if◌then◌else◌}
use cpp_example_code.Base.Lists.{get_or, set, replicate, drop}
use cpp_example_code.Base.Int.{ℤ, pos, negsuc}
use cpp_example_code.Hashtbl.State.{
  Ptr, null, Doubles, Entry, Chain, Call, key_free, val_free, free_entry, free_table, free_handle,
  Hashtbl, inc, dec,
}
use cpp_example_code.Hashtbl.Capacity.{clamp_capacity, tbl_index}
use cpp_example_code.Hashtbl.Chain.{find_first, unlink_first, assign_first}
use cpp_example_code.Hashtbl.Keys.{direct_hash, direct_equals}

-- `hashtbl_apply` over the rest of one chain and of the array: the client's state, the number of
-- entries visited, and whether to go on
unfoldable pub apply_chain {ℓ} :
    {S : Type ℓ} → (Ptr → Ptr → S → Bool × S) → Chain → S → ℕ → Bool × S × ℕ
apply_chain fn [] s n = (true, s, n)
apply_chain fn (e ∷ c) s n =
    let (go, s') = fn e.key e.val s in
    let rest = apply_chain fn c s' (inc n) in if go then rest else (false, s', inc n)

unfoldable pub apply_table {ℓ} :
    {S : Type ℓ} → (Ptr → Ptr → S → Bool × S) → List Chain → S → ℕ → S × ℕ
unfolding apply_chain
apply_table fn [] s n = (s, n)
apply_table fn (c ∷ t) s n =
    let (go, s', n') = apply_chain fn c s n in
    let rest = apply_table fn t s' n' in if go then rest else (s', n')

module _ {D : Type 0} where
  abbrev pub tbl_entry : Hashtbl D → ℕ → Chain
  tbl_entry h hashval = get_or h.table (tbl_index hashval h.table_size) []

  -- `*tbl_entry_ref(h, hashval) = c`
  abbrev pub set_slot : Hashtbl D → ℕ → Chain → List Chain
  set_slot h hashval c = set h.table (tbl_index hashval h.table_size) c

  -- `entry->hash == hv && h->equals_fn(entry->key, k)`
  abbrev pub matches : Hashtbl D → ℕ → Ptr → Entry → Bool
  matches h hv k e = e.hash == hv && h.equals_fn e.key k

  unfoldable pub find_entry : Hashtbl D → ℕ → Ptr → Option Entry
  unfolding find_first
  find_entry h hv k = find_first (matches h hv k) (tbl_entry h hv)

  unfoldable pub link_entry : Hashtbl D → Entry → Hashtbl D
  link_entry h e = record h {
    table = set_slot h e.hash (e ∷ tbl_entry h e.hash);
    nentries = inc h.nentries;
  }

  -- `entry->val = v` at the entry that `find_entry` finds
  abbrev pub overwrite : Hashtbl D → Ptr → Ptr → Hashtbl D
  overwrite h k v =
      let hv = h.hash_fn k in
      record h { table = set_slot h hv (assign_first (matches h hv k) v (tbl_entry h hv)) }

  -- the entry found and the table without it
  unfoldable pub remove_key : Hashtbl D → Ptr → Option (Entry × Hashtbl D)
  unfolding find_first unlink_first
  remove_key h k =
      let hv = h.hash_fn k in
      elim (find_first (matches h hv k) (tbl_entry h hv)) [
        | none ↦ none
        | some e ↦ some (
          e,
          record h {
            table = set_slot h hv (unlink_first (matches h hv k) (tbl_entry h hv));
            nentries = dec h.nentries;
          },
        )
      ]

  -- The loops of `hashtbl_resize`: each chain is taken apart from its head. The old array and its
  -- count are dropped afterwards, so what the loop does to them is left out.
  unfoldable pub transfer_chain : Chain → Hashtbl D → Hashtbl D
  transfer_chain [] tmp = tmp
  transfer_chain (e ∷ c) tmp = transfer_chain c (link_entry tmp e)

  unfoldable pub transfer_table : List Chain → Hashtbl D → Hashtbl D
  transfer_table [] tmp = tmp
  transfer_table (c ∷ t) tmp = transfer_table t (transfer_chain c tmp)

  -- `tmp_h` with its new array cleared; its other fields are never read
  abbrev pub fresh_table : Hashtbl D → ℕ → Hashtbl D
  fresh_table h capacity = record h {
    table = replicate capacity [];
    nentries = 0;
    table_size = capacity;
  }

  abbrev pub table_calls : Hashtbl D → List Call
  table_calls h = elim h.table [ [] ↦ [] | _ ∷ _ ↦ free_table ∷ [] ]

  -- the calls for one entry of `hashtbl_clear`
  unfoldable pub release : Hashtbl D → Entry → List Call
  release h e =
      (if h.key_free_fn then key_free e.key ∷ [] else [])
      ++ ((if h.val_free_fn then val_free e.val ∷ [] else []) ++ (free_entry e ∷ []))

  unfoldable pub clear_chain : Hashtbl D → Chain → ℕ → ℕ × List Call
  clear_chain h [] n = (n, [])
  clear_chain h (e ∷ c) n = let (m, calls) = clear_chain h c (dec n) in (m, release h e ++ calls)

  unfoldable pub clear_table : Hashtbl D → List Chain → ℕ → List Chain × ℕ × List Call
  clear_table h [] n = ([], n, [])
  clear_table h (c ∷ t) n =
      let (m, calls) = clear_chain h c n in
      let (t', m', calls') = clear_table h t m in ([] ∷ t', m', calls ++ calls')

  -- `hashtbl_clear`
  unfoldable pub clear : Hashtbl D → Hashtbl D × List Call
  clear h =
      let (t, n, calls) = clear_table h h.table h.nentries in
      (record h { table = t; nentries = n }, calls)

  -- `hashtbl_delete`
  unfoldable pub delete : Hashtbl D → List Call
  delete h = (clear h).1 ++ (free_table ∷ free_handle ∷ [])

  -- `hashtbl_lookup`
  unfoldable pub lookup : Hashtbl D → Ptr → Ptr
  lookup h k = elim (find_entry h (h.hash_fn k) k) [ none ↦ null | some e ↦ e.val ]

  -- the calls of `hashtbl_remove` for the entry that it unlinks
  abbrev pub remove_calls : Hashtbl D → Entry → List Call
  remove_calls h e =
      (if h.key_free_fn then key_free e.key ∷ [] else [])
      ++ ((if h.val_free_fn && not (e.val == null) then val_free e.val ∷ [] else [])
          ++ (free_entry e ∷ []))

  -- `hashtbl_remove`
  unfoldable pub remove : Hashtbl D → Ptr → ℕ × Hashtbl D × List Call
  remove h k = elim (remove_key h k) [
    | none ↦ (1, h, [])
    | some (e, h') ↦ (0, h', remove_calls h' e)
  ]

  -- `hashtbl_count` and `hashtbl_capacity`
  unfoldable pub count : Hashtbl D → ℕ
  count h = h.nentries

  unfoldable pub capacity : Hashtbl D → ℕ
  capacity h = h.table_size

  unfoldable pub apply {ℓ} : {S : Type ℓ} → Hashtbl D → (Ptr → Ptr → S → Bool × S) → S → S × ℕ
  unfolding apply_table
  apply h fn s = apply_table fn h.table s 0

-- `struct hashtbl_iter`; `entry` is the part of a chain from the entry pointed to on, empty for NULL.
pub record Iter : Type 0 where
  pub key : Ptr
  pub val : Ptr
  pub pos : ℕ
  pub entry : Chain

-- The `for` loop of `hashtbl_iter_next` from slot `i` on, over the slots that are left.
unfoldable pub iter_scan : List Chain → ℕ → Iter → ℕ × Iter
iter_scan [] i it = (0, it)
iter_scan ([] ∷ t) i it = iter_scan t (i + 1) (record it { pos = i; entry = [] })
iter_scan ((e ∷ c) ∷ t) i it = (1, record { key = e.key; val = e.val; pos = i; entry = e ∷ c })

module _ {D : Type 0} where
  -- `hashtbl_iter_init`
  unfoldable pub iter_init : Hashtbl D → Iter
  iter_init h = record { key = null; val = null; pos = 0; entry = [] }

  -- `hashtbl_iter_next`
  unfoldable pub iter_next : Hashtbl D → Iter → ℕ × Iter
  unfolding iter_scan
  iter_next h it = elim it.entry [
    | [] ↦ iter_scan (drop it.pos h.table) it.pos it
    | e ∷ c ↦ elim c [
      | e' ∷ c' ↦ (1, record { key = e'.key; val = e'.val; pos = it.pos; entry = e' ∷ c' })
      | [] ↦
          iter_scan (drop (it.pos + 1) h.table) (it.pos + 1)
            (record it { pos = it.pos + 1; entry = [] })
    ]
  ]

module _ {D : Type 0} (fp : Doubles D) where
  -- `(int)(((double)capacity * max_load_factor) + 0.5)`
  unfoldable pub resize_threshold : ℕ → D → ℕ
  resize_threshold capacity factor = fp.to_int (fp.add (fp.mul (fp.of_nat capacity) factor) fp.half)

  -- `hashtbl_resize`, where `granted` is whether the new array can be allocated
  unfoldable pub resize : Bool → Hashtbl D → ℤ → ℕ × Hashtbl D × List Call
  resize granted h requested =
      let capacity = clamp_capacity requested in
      if ltb capacity h.table_size
      then (0, h, [])
      else if capacity == h.table_size
      then (0, h, [])
      else if not granted
      then (1, h, [])
      else let tmp = transfer_table h.table (fresh_table h capacity) in
        (
          0,
          record h {
            table = tmp.table;
            table_size = tmp.table_size;
            nentries = tmp.nentries;
            resize_threshold = resize_threshold capacity h.max_load_factor;
          },
          table_calls h,
        )

  -- `2 * h->table_size`; at the largest size it is 2 ^ 31, which an `int` wraps to -2 ^ 31
  unfoldable pub doubled : ℕ → ℤ
  doubled n = if ltb (2 * n) 0x8000_0000 then pos (2 * n) else negsuc 0x7fff_ffff

  -- the automatic resize of `hashtbl_insert`, whose failures are benign
  unfoldable pub grow : Bool → Hashtbl D → Hashtbl D × List Call
  grow granted h =
      if h.auto_resize && leb h.resize_threshold h.nentries
      then (let (_, h', calls) = resize granted h (doubled h.table_size) in (h', calls))
      else (h, [])

  -- `hashtbl_insert`, where `granted` and `allocated` are the answers for a new array and for the
  -- entry
  unfoldable pub insert : Bool → Bool → Hashtbl D → Ptr → Ptr → ℕ × Hashtbl D × List Call
  insert granted allocated h k v =
      let hv = h.hash_fn k in
      elim (find_entry h hv k) [
        | some e ↦ (0, overwrite h k v, if h.val_free_fn then val_free e.val ∷ [] else [])
        | none ↦
            let (h', calls) = grow granted h in
            if allocated
            then (0, link_entry h' (record { key = k; val = v; hash = hv }), calls)
            else (1, h', calls)
      ]

  -- the load factor that `hashtbl_create` stores
  unfoldable pub clamp_load_factor : D → D
  clamp_load_factor f =
      if fp.lt f fp.zero then fp.three_quarters else if fp.lt fp.one f then fp.one else f

  -- `hashtbl_create`, where `granted` and `allocated` are the answers for the array and the handle
  unfoldable pub create :
      Bool
      → Bool
      → ℤ
      → D
      → Bool
      → Option (Ptr → ℕ)
      → Option (Ptr → Ptr → Bool)
      → Bool
      → Bool
      → Option (Hashtbl D) × List Call
  create granted allocated capacity factor auto_resize hash_fn equals_fn key_free_fn val_free_fn =
      if not allocated
      then (none, [])
      else let (ret, h, calls) =
          resize granted
            (record {
              max_load_factor = clamp_load_factor factor;
              hash_fn = elim hash_fn [ none ↦ direct_hash | some f ↦ f ];
              equals_fn = elim equals_fn [ none ↦ direct_equals | some f ↦ f ];
              nentries = 0;
              table_size = 0;
              resize_threshold = 0;
              auto_resize = auto_resize;
              key_free_fn = key_free_fn;
              val_free_fn = val_free_fn;
              table = [];
            })
            capacity in
        if ret == 0 then (some h, calls) else (none, calls ++ (free_handle ∷ []))

  -- `hashtbl_load_factor`
  unfoldable pub load_factor : Hashtbl D → D
  load_factor h = fp.div (fp.of_nat h.nentries) (fp.of_nat h.table_size)
