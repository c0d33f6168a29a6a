-- ===== src/LinkedHashtbl/Ops.antt =====
-- The operations of c-hacks/src/linked-hashtbl.c, with l_ for the source's prefix l_hashtbl_. What
-- `malloc_fn` and `evictor_fn` answer is an argument, one for each call; a changed table is returned
-- beside the result and the calls made. The threshold, the clamping of a capacity and of a load
-- factor, the slot's index and the count's wrap-around are written as in hashtbl.c and are taken from
-- its model. `none` is a run that does not come to the end of the list.
use cpp_example_code.Base.{
  ℕ, zero, suc, ◌+◌, Bool, true, false, ◌&&◌, not, Option, none, some, List, [], ◌∷◌, ◌++◌,
}
use cpp_example_code.Base.Tests.{ltb, leb, ◌==◌, if◌then◌else◌}
use cpp_example_code.Base.Lists.{get_or, set, replicate}
use cpp_example_code.Base.Loops.{assign}
use cpp_example_code.Base.Int.{ℤ, pos, negsuc}
use cpp_example_code.Hashtbl.State.{
  Ptr, null, Doubles, Entry, Call, key_free, val_free, free_entry, free_table, free_handle, inc,
  dec,
}
use cpp_example_code.Hashtbl.Capacity.{clamp_capacity, tbl_index}
use cpp_example_code.Hashtbl.Keys.{direct_hash, direct_equals}
use cpp_example_code.Hashtbl.Ops.{resize_threshold, doubled, clamp_load_factor}
use cpp_example_code.LinkedHashtbl.State.{Addr, head, Links, Linked}
use cpp_example_code.LinkedHashtbl.Ring.{list_init, list_add_before, list_remove, given_back}

-- `while (entry != NULL) { if (...) break; entry = entry->next; }`
unfoldable pub find_node : (Addr → Bool) → List Addr → Option Addr
find_node test [] = none
find_node test (a ∷ c) = if test a then some a else find_node test c

-- `*slot_ref = entry->next` where that walk stops
unfoldable pub unlink_node : (Addr → Bool) → List Addr → List Addr
unlink_node test [] = []
unlink_node test (a ∷ c) = if test a then c else a ∷ unlink_node test c

-- `for (node = head->next; node != head; node = node->next)`, as the nodes that it meets
unfoldable pub walk : ℕ → (Addr → Addr) → Addr → Option (List Addr)
walk zero step node = none
walk (suc fuel) step node =
    let rest = walk fuel step (step node) in
    if node == head then some [] else elim rest [ none ↦ none | some nodes ↦ some (node ∷ nodes) ]

-- The loop of `l_hashtbl_apply`: the client's state and the number of entries visited.
unfoldable pub l_apply_nodes {ℓ} :
    {S : Type ℓ} → (Addr → Entry) → (Ptr → Ptr → S → ℕ × S) → List Addr → S → ℕ → S × ℕ
l_apply_nodes entries fn [] s n = (s, n)
l_apply_nodes entries fn (a ∷ nodes) s n =
    let (go, s') = fn (entries a).key (entries a).val s in
    let rest = l_apply_nodes entries fn nodes s' (inc n) in if go == 1 then rest else (s', inc n)

-- the loop of `l_hashtbl_resize`, which puts the nodes into the new array one after the other
unfoldable pub place : (Addr → Entry) → ℕ → List Addr → List (List Addr) → List (List Addr)
place entries capacity [] t = t
place entries capacity (a ∷ nodes) t =
    let i = tbl_index (entries a).hash capacity in
    place entries capacity nodes (set t i (a ∷ get_or t i []))

module _ {D : Type 0} where
  abbrev pub l_tbl_entry : Linked D → ℕ → List Addr
  l_tbl_entry h hv = get_or h.table (tbl_index hv h.table_size) []

  -- `entry->hash == hv && h->equals_fn(entry->key, k)`
  abbrev pub l_matches : Linked D → ℕ → Ptr → Addr → Bool
  l_matches h hv k a = (h.entries a).hash == hv && h.equals_fn (h.entries a).key k

  unfoldable pub l_find_entry : Linked D → ℕ → Ptr → Option Addr
  unfolding find_node
  l_find_entry h hv k = find_node (l_matches h hv k) (l_tbl_entry h hv)

  -- `record_access`, which moves a node to the front in access order
  unfoldable pub record_access : Linked D → Addr → Linked D
  record_access h a =
      if h.access_order then record h { links = list_add_before (list_remove h.links a) a } else h

  -- the entry found and the table without it
  unfoldable pub l_remove_key : Linked D → Ptr → Option (Addr × Linked D)
  l_remove_key h k =
      let hv = h.hash_fn k in
      elim (l_find_entry h hv k) [
        | none ↦ none
        | some a ↦ some (
          a,
          record h {
            table =
                set h.table (tbl_index hv h.table_size)
                  (unlink_node (l_matches h hv k) (l_tbl_entry h hv));
            nentries = dec h.nentries;
            links = list_remove h.links a;
          },
        )
      ]

  -- the calls of `l_hashtbl_remove` for the entry that it unlinks
  abbrev pub l_remove_calls : Linked D → Entry → List Call
  l_remove_calls h e =
      (if h.key_free_fn then key_free e.key ∷ [] else [])
      ++ ((if h.val_free_fn && not (e.val == null) then val_free e.val ∷ [] else [])
          ++ (free_entry e ∷ []))

  unfoldable pub l_remove : Linked D → Ptr → ℕ × Linked D × List Call
  l_remove h k = elim (l_remove_key h k) [
    | none ↦ (1, h, [])
    | some (a, h') ↦ (0, h', l_remove_calls h' (h'.entries a))
  ]

  -- the value and the table, in which the access may be recorded
  unfoldable pub l_lookup : Linked D → Ptr → Ptr × Linked D
  l_lookup h k = elim (l_find_entry h (h.hash_fn k) k) [
    | none ↦ (null, h)
    | some a ↦ (((record_access h a).entries a).val, record_access h a)
  ]

  -- A new entry at `a`, at the head of its slot's chain and of the list.
  unfoldable pub l_link : Linked D → Addr → Entry → Linked D
  l_link h a e = record h {
    entries = assign h.entries a e;
    table = set h.table (tbl_index e.hash h.table_size) (a ∷ l_tbl_entry h e.hash);
    links = list_add_before h.links a;
    nentries = inc h.nentries;
  }

  -- the eviction of `l_hashtbl_insert`: the entry of the list's last node is removed by its key
  unfoldable pub evict : Bool → Linked D → Linked D × List Call
  evict false h = (h, [])
  evict true h = let (_, h', calls) = l_remove h (h.entries (h.links.prev head)).key in (h', calls)

  -- the nodes that a loop over the list meets, forwards and backwards
  abbrev pub forwards : Linked D → Option (List Addr)
  forwards h = walk (h.nentries + 1) h.links.next (h.links.next head)

  abbrev pub l_table_calls : Linked D → List Call
  l_table_calls h = elim h.table [ [] ↦ [] | _ ∷ _ ↦ free_table ∷ [] ]

  -- the calls for one entry of `l_hashtbl_clear`
  abbrev pub l_release : Linked D → Entry → List Call
  l_release h e =
      (if h.key_free_fn then key_free e.key ∷ [] else [])
      ++ ((if h.val_free_fn then val_free e.val ∷ [] else []) ++ (free_entry e ∷ []))

  -- the loop of `l_hashtbl_clear`, from `node` on; `left` is what stands in a node's links after it has been freed
  unfoldable pub l_clear_loop : Links → ℕ → Linked D → Addr → Option (Linked D × List Call)
  l_clear_loop left zero h node = none
  l_clear_loop left (suc fuel) h node =
      let tmp = h.links.next node in
      let h' = record h {
        links = given_back left (list_remove h.links node) node;
        nentries = dec h.nentries;
      } in
      let rest = l_clear_loop left fuel h' tmp in
      if node == head then some (h, []) else elim rest [
        | none ↦ none
        | some (g, calls) ↦ some (g, l_release h (h.entries node) ++ calls)
      ]

  unfoldable pub l_clear : Links → Linked D → Option (Linked D × List Call)
  l_clear left h = elim (l_clear_loop left (h.nentries + 1) h (h.links.next head)) [
    | none ↦ none
    | some (g, calls) ↦
        some (record g { table = replicate g.table_size []; links = list_init g.links }, calls)
  ]

  unfoldable pub l_delete : Links → Linked D → Option (List Call)
  l_delete left h = elim (l_clear left h) [
    | none ↦ none
    | some (_, calls) ↦ some (calls ++ (free_table ∷ free_handle ∷ []))
  ]

  unfoldable pub l_count : Linked D → ℕ
  l_count h = h.nentries

  unfoldable pub l_capacity : Linked D → ℕ
  l_capacity h = h.table_size

  unfoldable pub l_apply {ℓ} :
      {S : Type ℓ} → Linked D → (Ptr → Ptr → S → ℕ × S) → S → Option (S × ℕ)
  l_apply h fn s = elim (forwards h) [
    | none ↦ none
    | some nodes ↦ some (l_apply_nodes h.entries fn nodes s 0)
  ]

-- `struct l_hashtbl_iter`
pub record LinkedIter : Type 0 where
  pub key : Ptr
  pub val : Ptr
  pub direction : ℤ
  pub pos : Addr
  pub end : Addr

-- `direction >= 1`
abbrev pub is_forward : ℤ → Bool
is_forward (negsuc n) = false
is_forward (pos n) = leb 1 n

module _ {D : Type 0} where
  unfoldable pub l_iter_init : Linked D → ℤ → LinkedIter
  l_iter_init h direction = record {
    key = null;
    val = null;
    direction = direction;
    pos = if is_forward direction then h.links.next head else h.links.prev head;
    end = head;
  }

  unfoldable pub l_iter_next : Linked D → LinkedIter → ℕ × LinkedIter
  l_iter_next h it =
      let node = it.pos in
      if node == it.end then (0, it) else (
        1,
        record it {
          pos = if is_forward it.direction then h.links.next node else h.links.prev node;
          key = (h.entries node).key;
          val = (h.entries node).val;
        },
      )

module _ {D : Type 0} (fp : Doubles D) where
  unfoldable pub l_resize : Bool → Linked D → ℤ → Option (ℕ × Linked D × List Call)
  l_resize granted h requested =
      let capacity = clamp_capacity requested in
      if ltb capacity h.table_size
      then some (0, h, [])
      else if capacity == h.table_size
      then some (0, h, [])
      else if not granted
      then some (1, h, [])
      else elim (forwards h) [
        | none ↦ none
        | some nodes ↦ some (
          0,
          record h {
            table = place h.entries capacity nodes (replicate capacity []);
            table_size = capacity;
            resize_threshold = resize_threshold fp capacity h.max_load_factor;
          },
          l_table_calls h,
        )
      ]

  -- the automatic resize of `l_hashtbl_insert`, whose failures are benign
  unfoldable pub l_grow : Bool → Linked D → Option (Linked D × List Call)
  l_grow granted h =
      if h.auto_resize && leb h.resize_threshold h.nentries
      then (elim (l_resize granted h (doubled fp h.table_size)) [
        | none ↦ none
        | some (_, h', calls) ↦ some (h', calls)
      ])
      else some (h, [])

  -- the end of `l_hashtbl_insert`, after the eviction
  unfoldable pub l_settle : Bool → Linked D × List Call → Option (ℕ × Linked D × List Call)
  l_settle granted (kept, calls) = elim (l_grow granted kept) [
    | none ↦ none
    | some (grown, calls') ↦ some (0, grown, calls ++ calls')
  ]

  -- `granted`, `memory` and `evicts` are the answers for a new array, for the entry and of the
  -- evictor.
  unfoldable pub l_insert :
      Bool → Option Addr → Bool → Linked D → Ptr → Ptr → Option (ℕ × Linked D × List Call)
  l_insert granted memory evicts h k v =
      let hv = h.hash_fn k in
      elim (l_find_entry h hv k) [
        | some a ↦ some (
          0,
          record h { entries = assign h.entries a (record (h.entries a) { val = v }) },
          if h.val_free_fn then val_free (h.entries a).val ∷ [] else [],
        )
        | none ↦ elim memory [
          | none ↦ some (1, h, [])
          | some a ↦
              l_settle granted (evict evicts (l_link h a (record { key = k; val = v; hash = hv })))
        ]
      ]

  -- `granted` and `allocated` are the answers for the array and the handle, and `links` is what the
  -- handle's memory holds before `list_init`.
  unfoldable pub l_create :
      Bool
      → Bool
      → Links
      → (Addr → Entry)
      → ℤ
      → D
      → Bool
      → Bool
      → Option (Ptr → ℕ)
      → Option (Ptr → Ptr → Bool)
      → Bool
      → Bool
      → Option (Option (Linked D) × List Call)
  l_create granted allocated links entries capacity factor auto_resize access_order hash_fn
        equals_fn key_free_fn val_free_fn =
      if not allocated
      then some (none, [])
      else elim (l_resize granted
          (record {
            links = list_init links;
            entries = entries;
            max_load_factor = clamp_load_factor fp factor;
            hash_fn = elim hash_fn [ none ↦ direct_hash | some f ↦ f ];
            equals_fn = elim equals_fn [ none ↦ direct_equals | some f ↦ f ];
            nentries = 0;
            table_size = 0;
            resize_threshold = 0;
            auto_resize = auto_resize;
            access_order = access_order;
            key_free_fn = key_free_fn;
            val_free_fn = val_free_fn;
            table = [];
          })
          capacity) [
            | none ↦ none
            | some (ret, h, calls) ↦
                some (if ret == 0 then (some h, calls) else (none, calls ++ (free_handle ∷ [])))
          ]

  unfoldable pub l_load_factor : Linked D → D
  l_load_factor h = fp.div (fp.of_nat h.nentries) (fp.of_nat h.table_size)
