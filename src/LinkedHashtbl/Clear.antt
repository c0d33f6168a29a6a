-- ===== src/LinkedHashtbl/Clear.antt =====
-- `l_hashtbl_clear` and `l_hashtbl_delete`: every entry is released once, in the list's order.
use cpp_example_code.Base.{
  ℕ, zero, suc, ◌+◌, ◌<◌, ◌≡◌, refl, sym, ap, ◌∙◌, true, false, Option, none, some, List, [], ◌∷◌,
  ◌++◌, map, arith,
}
use mathlib.Core.Path.{subst}
use cpp_example_code.Base.Tests.{◌==◌, ==_refl}
use cpp_example_code.Base.Lists.{length, replicate}
use cpp_example_code.Hashtbl.State.{Ptr, Call, free_table, free_handle, dec, ulong_mod}
use cpp_example_code.Hashtbl.Rounding.{IsSize}
use cpp_example_code.Hashtbl.Freed.{FreedAll, no_more, one_more, calls-Freed}
use cpp_example_code.Hashtbl.Read.{IsKeyed}
use cpp_example_code.Hashtbl.Slots.{Stores, Stores-replicate}
use cpp_example_code.LinkedHashtbl.State.{Addr, head, Links, Linked}
use cpp_example_code.LinkedHashtbl.Ring.{
  occurs, erase, Segment, IsRing, list_init, list_remove, given_back, given_back-IsRing,
  list_init-IsRing, list_remove-IsRing,
}
use cpp_example_code.LinkedHashtbl.Ops.{l_release, l_clear_loop, l_clear, l_delete}
use cpp_example_code.LinkedHashtbl.View.{Keeps}
use cpp_example_code.LinkedHashtbl.Change.{settings}
use cpp_example_code.LinkedHashtbl.Resize.{occurs-empty, empty_slots}
use cpp_example_code.LinkedHashtbl.Walk.{order-nentries}

abbrev first_or : Addr → List Addr → Addr
first_or b [] = b
first_or b (x ∷ xs) = x

Segment-first :
    (l : Links) (a : Addr) (xs : List Addr) (b : Addr) → Segment l a xs b → l.next a ≡ first_or b xs
Segment-first l a [] b (s, t) = s
Segment-first l a (x ∷ xs) b (s, t, rest) = s

erase_first : (x : Addr) (xs : List Addr) → erase x (x ∷ xs) ≡ xs
erase_first x xs = rw (==_refl x) refl

module _ {D : Type 0} where
  -- A table without entries, whatever its size.
  pub empty-Keeps :
      (h : Linked D) (n : ℕ)
      → IsKeyed h.hash_fn h.equals_fn
      → IsSize n
      → Keeps
          (record h {
            links = list_init h.links;
            table = replicate n [];
            table_size = n;
            nentries = 0;
          })
          []
          (λ _. none)
  empty-Keeps h n laws size = record {
    ring = list_init-IsRing h.links;
    same = λ b. occurs-empty b n;
    models = record {
      keyed = laws;
      size = size;
      stores =
          subst (λ t. Stores h.hash_fn h.equals_fn n 0 (λ _. none) t)
            (sym (empty_slots h.entries n)) (Stores-replicate laws n);
      fits = omega arith;
    };
  }

  -- What `l_hashtbl_clear` calls frees the entries of the list's nodes, from the first on.
  abbrev pub IsReleased : Linked D → List Addr → List Call → Type 0
  IsReleased h nodes calls = FreedAll h.key_free_fn h.val_free_fn (map h.entries nodes) calls

  -- the table after the loop, with whatever links the removals leave
  abbrev pub drained : Linked D → Links → Linked D
  drained h links = record h { links = links; nentries = 0 }

  clear_loop_drains :
      (left : Links) (fuel : ℕ) (h : Linked D) (nodes : List Addr) (node : Addr)
      → IsRing h.links nodes
      → h.links.next head ≡ node
      → length nodes ≡ h.nentries
      → h.nentries < ulong_mod
      → length nodes < fuel
      → (links : Links) × (calls : List Call) × (l_clear_loop left fuel h node
          ≡ some (drained h links, calls))
        × IsReleased h nodes calls
  unfolding l_clear_loop
  clear_loop_drains left zero h nodes node r at counted fits enough = absurd (omega arith)
  clear_loop_drains left (suc fuel) h [] node r at counted fits enough =
      let stop : (node == head) ≡ true = ground (arith, at, r.ring.0) in
      (h.links, [], rw stop (ap (λ n. some (record h { nentries = n }, [])) (sym counted)), no_more)
  clear_loop_drains left (suc fuel) h (x ∷ xs) node r at counted fits enough =
      let here : node ≡ x = sym at ∙ r.ring.0 in
      let go : (node == head) ≡ false = ground (arith, r.headless) in
      let out = list_remove h.links node in
      let h' = record h { links = given_back left out node; nentries = dec h.nentries } in
      let inside : 0 < occurs x (x ∷ xs) = rw (==_refl x) (omega arith) in
      let r' : IsRing (list_remove h.links node) xs =
        subst (λ t. IsRing (list_remove h.links t) xs) (sym here)
          (subst (IsRing (list_remove h.links x)) (erase_first x xs)
            (list_remove-IsRing h.links x (x ∷ xs) r inside)) in
      let gone : occurs x xs ≡ 0 =
        (let once = r.once x in let self : (x == x) ≡ true = ==_refl x in ground (arith, once)) in
      let freed_ring : IsRing (given_back left out node) xs =
        given_back-IsRing left out node xs r' (ap (λ t. occurs t xs) here ∙ gone) go in
      let next : (given_back left out node).next head ≡ h.links.next node =
        Segment-first (given_back left out node) head xs head freed_ring.ring
        ∙ sym (Segment-first h.links x xs head r.ring.2)
        ∙ ap h.links.next (sym here) in
      let (links, calls, e, freed) =
        clear_loop_drains left fuel h' xs (h.links.next node) freed_ring next (omega arith)
          (omega arith) (omega arith) in
      (
        links,
        l_release h (h.entries x) ++ calls,
        rw (go, e) (ap (λ t. some (drained h links, l_release h (h.entries t) ++ calls)) here),
        one_more (h.entries x) (map h.entries xs) _ calls
            (calls-Freed h.key_free_fn h.val_free_fn (h.entries x)) freed,
      )

  module _ (h : Linked D) (order : List Addr) (f : Ptr → Option Ptr) (keeps : Keeps h order f) where
    -- What clearing promises: it ends, the table is empty and has its size and settings still, and the
    -- calls free each entry, with its key and its value where the table was told to, one after the other in the
    -- list's order.
    pub record Cleared (out : Option (Linked D × List Call)) : Type 0 where
      pub after : Linked D
      pub calls : List Call
      pub returns : out ≡ some (after, calls)
      pub freed : IsReleased h order calls
      pub keeps_none : Keeps after [] (λ _. none)
      pub same_settings : settings after ≡ settings h
      pub sized : after.table_size ≡ h.table_size
      pub counted : after.nentries ≡ 0

    -- `l_hashtbl_clear` ends with an empty table of the same size and settings, having freed every entry once, with its
    -- key and its value as the table was told to, in the list's order, whatever free leaves in their links.
    pub l_clear-Cleared : (left : Links) → Cleared (l_clear left h)
    unfolding l_clear
    l_clear-Cleared left =
        let count = order-nentries h order f keeps in
        let (links, calls, e, freed) =
          clear_loop_drains left (h.nentries + 1) h order (h.links.next head) keeps.ring refl count
            keeps.models.fits (omega arith) in
        record {
          after = record h {
            links = list_init links;
            table = replicate h.table_size [];
            nentries = 0;
          };
          calls = calls;
          returns = rw (e, l_clear) refl;
          freed = freed;
          keeps_none =
              empty-Keeps (drained h links) h.table_size keeps.models.keyed keeps.models.size;
          same_settings = refl;
          sized = refl;
          counted = refl;
        }

    -- `l_hashtbl_delete` ends, and releases every entry once before the array and the handle.
    pub l_delete-IsReleased :
        (left : Links)
        → (calls : List Call) × (l_delete left h ≡ some (calls ++ (free_table ∷ free_handle ∷ [])))
          × IsReleased h order calls
    unfolding l_delete
    l_delete-IsReleased left =
        let c = l_clear-Cleared left in (c.calls, rw (c.returns, l_delete) refl, c.freed)
