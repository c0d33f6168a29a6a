-- ===== src/EventLoop/Pending.antt =====
-- The queue of pending changes: who posts appends, who handles goes through it in order.
use cpp_example_code.Base.{
  ℕ, zero, suc, ◌+◌, ◌≤◌, ◌<◌, ◌≡◌, refl, sym, ap, ◌∙◌, inl, inr, Bool, true, false, Option, none,
  some, List, [], ◌∷◌, ◌++◌, arith,
}
use mathlib.Core.Path.{subst}
use cpp_example_code.Base.Tests.{◌==◌, if◌then◌else◌, Bool-cases, Option-cases, ==→eq, ==_refl}
use cpp_example_code.Base.Lists.{length, length-append}
use cpp_example_code.Base.Loops.{assign, assign_self, assign_other}
use cpp_example_code.Base.Occurs.{one_if, occurs, last_or, occurs-last_or, ne_of_occurs}
use cpp_example_code.EventLoop.State.{
  Addr, null, Channel, ChannelMap, Element, Dispatcher, EventLoop,
}
use cpp_example_code.EventLoop.Ops.{
  handle_pending_add, handle_pending_remove, handle_pending_update, handle_change, handle_from,
  handle_pending_channel, channel_buffer_nolock, wakeup, do_channel_event,
}

-- The `next` pointers lead from `a` through the elements `xs` to NULL.
abbrev pub Chained : (Addr → Element) → Addr → List Addr → Type 0
Chained els a [] = a ≡ null
Chained els a (x ∷ xs) = (a ≡ x) × (0 < x) × Chained els (els x).next xs

-- the last element, NULL where there is none
abbrev last_of : List Addr → Addr
last_of [] = null
last_of (x ∷ xs) = last_or x xs

-- a change, as it was posted: its type and its channel
abbrev pub change_of : (Addr → Element) → Addr → ℕ × Addr
change_of els e = ((els e).type, (els e).channel)

module _ {S : Type 0} where
  -- The queue holds the elements `xs`, each once, from its head to its tail.
  pub record IsQueue (l : EventLoop S) (xs : List Addr) : Type 0 where
    pub chained : Chained l.elements l.pending_head xs
    pub once : (a : Addr) → occurs a xs ≤ 1
    pub tail : l.pending_tail ≡ last_of xs

-- Elements that are not on the chain do not matter.
Chained-frame :
    (els els' : Addr → Element) (a : Addr) (xs : List Addr)
    → ((c : Addr) → 0 < occurs c xs → (els' c).next ≡ (els c).next)
    → Chained els a xs
    → Chained els' a xs
Chained-frame els els' a [] same c = c
Chained-frame els els' a (x ∷ xs) same (e, proper, rest) = (
  e,
  proper,
  Chained-frame els els' (els' x).next xs (λ c h. same c (omega arith))
      (subst (λ t. Chained els t xs) (sym (same x (ground (arith, ==_refl x)))) rest),
)

-- what the queue's elements ask for
abbrev pub changes_of : (Addr → Bool) → (Addr → Element) → List Addr → List (Bool × ℕ × Addr)
changes_of grants els [] = []
changes_of grants els (e ∷ xs) =
    (grants e, (els e).type, (els e).channel) ∷ changes_of grants els xs

module _ {S : Type 0} where
  -- the queue's fields after it has been handled
  abbrev pub emptied : EventLoop S → EventLoop S
  emptied l = record l { pending_head = null; pending_tail = null; is_handle_pending = false }

module _ {S : Type 0} (d : Dispatcher S) where
  handle_change_elements :
      (granted : Bool) (type : ℕ) (a : Addr) (l l' : EventLoop S)
      → handle_change d granted type a l ≡ some l'
      → l'.elements ≡ l.elements
  unfolding handle_change handle_pending_add handle_pending_remove handle_pending_update
  handle_change_elements granted type a l l' e = ground arith

  -- The changes carried out one after the other, each with realloc's answer.
  unfoldable pub apply_changes : List (Bool × ℕ × Addr) → EventLoop S → Option (EventLoop S)
  apply_changes [] l = some l
  apply_changes ((granted, type, a) ∷ changes) l = elim (handle_change d granted type a l) [
    | none ↦ none
    | some l' ↦ apply_changes changes l'
  ]

  handle_from-changes :
      (fuel : ℕ) (grants : Addr → Bool) (els : Addr → Element) (e : Addr) (xs : List Addr)
      (l : EventLoop S)
      → l.elements ≡ els
      → Chained els e xs
      → length xs < fuel
      → handle_from d fuel grants e l ≡ apply_changes (changes_of grants els xs) l
  unfolding handle_from apply_changes
  handle_from-changes zero grants els e xs l same chain enough = absurd (omega arith)
  handle_from-changes (suc fuel) grants els e [] l same at enough =
      let stop : (e == null) ≡ true = ground (arith, at) in rw stop refl
  handle_from-changes (suc fuel) grants els e (x ∷ xs) l same (at, proper, rest) enough =
      let go : (e == null) ≡ false = ground arith in
      let typed : (l.elements e).type ≡ (els x).type =
        ap (λ t. (t e).type) same ∙ ap (λ t. (els t).type) at in
      let meant : (l.elements e).channel ≡ (els x).channel =
        ap (λ t. (t e).channel) same ∙ ap (λ t. (els t).channel) at in
      rw (go, typed, meant, ap grants at, handle_from)
        (elim (Option-cases (handle_change d (grants x) (els x).type (els x).channel l)) [
          | inl stuck ↦ rw (stuck, apply_changes) refl
          | inr (l', done) ↦
              let same' : l'.elements ≡ els =
                handle_change_elements (grants x) (els x).type (els x).channel l l' done ∙ same in
              let next : (l'.elements e).next ≡ (els x).next =
                ap (λ t. (t e).next) same' ∙ ap (λ t. (els t).next) at in
              rw (done, next, apply_changes)
                (handle_from-changes fuel grants els (els x).next xs l' same' rest (omega arith))
        ])

  -- `event_loop_handle_pending_channel` carries out every posted change once, in the order in which
  -- they were posted, and empties the queue.
  pub handle_pending_channel-apply_changes :
      (fuel : ℕ) (grants : Addr → Bool) (l : EventLoop S) (xs : List Addr)
      → IsQueue l xs
      → length xs < fuel
      → handle_pending_channel d fuel grants l
        ≡ (elim (apply_changes
            (changes_of grants l.elements xs)
            (record l { is_handle_pending = true })) [ none ↦ none | some l' ↦ some (emptied l') ])
  unfolding handle_pending_channel
  handle_pending_channel-apply_changes fuel grants l xs queue enough =
      rw
        (
          handle_from-changes fuel grants l.elements l.pending_head xs
              (record l { is_handle_pending = true }) refl queue.chained enough,
          handle_pending_channel,
        )
        refl

Chained-append :
    (els els' : Addr → Element) (a x : Addr) (xs : List Addr) (e : Addr)
    → Chained els a (x ∷ xs)
    → ((c : Addr) → occurs c (x ∷ xs) ≤ 1)
    → ((c : Addr)
        → 0 < occurs c (x ∷ xs)
        → (c == last_or x xs) ≡ false
        → (els' c).next ≡ (els c).next)
    → (els' (last_or x xs)).next ≡ e
    → (els' e).next ≡ null
    → 0 < e
    → Chained els' a (x ∷ (xs ++ (e ∷ [])))
Chained-append els els' a x [] e (at, proper, end) once other last ends new =
    (at, proper, (last, new, ends))
Chained-append els els' a x (y ∷ ys) e (at, proper, rest) once other last ends new =
    let inner : (x == last_or y ys) ≡ false = elim (Bool-cases (x == last_or y ys)) [
      | inl same ↦
          let twice : 0 < occurs x (y ∷ ys) =
            subst (λ t. 0 < occurs t (y ∷ ys)) (sym (==→eq x (last_or y ys) same))
              (occurs-last_or y ys) in
          absurd (ground (arith, once x, ==_refl x))
      | inr differ ↦ differ
    ] in
    let next : (els' x).next ≡ (els x).next = other x (ground (arith, ==_refl x)) inner in
    (
      at,
      proper,
      subst (λ t. Chained els' t (y ∷ (ys ++ (e ∷ [])))) (sym next)
          (Chained-append els els' (els x).next y ys e rest (λ c. omega (arith, once c))
            (λ c h differ. other c (omega arith) differ) last ends new),
    )

last_of_append : (xs : List Addr) (e : Addr) → last_of (xs ++ (e ∷ [])) ≡ e
last_of_append [] e = refl
last_of_append (x ∷ []) e = refl
last_of_append (x ∷ y ∷ ys) e = last_of_append (y ∷ ys) e

occurs-snoc :
    (c : Addr) (xs : List Addr) (e : Addr)
    → occurs c (xs ++ (e ∷ [])) ≡ occurs c xs + one_if (c == e)
occurs-snoc c [] e = omega arith
occurs-snoc c (x ∷ xs) e = omega (arith, occurs-snoc c xs e)

module _ {S : Type 0} where
  -- what a posted change leaves alone
  abbrev pub rest_of : EventLoop S → S × ChannelMap × (Addr → Channel) × Bool × ℕ
  rest_of l = (l.event_dispatcher_data, l.channel_map, l.channels, l.is_handle_pending, l.wakeups)

  -- What posting does: the new element comes last, the elements before it ask for what they asked for, and
  -- the loop is otherwise as it was.
  pub record Posted (l : EventLoop S) (xs : List Addr) (e : Addr) (a : Addr) (type : ℕ)
      (after : EventLoop S) : Type 0 where
    pub queue : IsQueue after (xs ++ (e ∷ []))
    pub newest : change_of after.elements e ≡ (type, a)
    pub older : (c : Addr) → 0 < occurs c xs → change_of after.elements c ≡ change_of l.elements c
    pub same : rest_of after ≡ rest_of l

  -- `event_loop_channel_buffer_nolock` appends the change to the queue, if malloc gives an address that is
  -- not in the queue.
  pub channel_buffer_nolock-Posted :
      (l : EventLoop S) (xs : List Addr) (e a : Addr) (type : ℕ)
      → IsQueue l xs
      → 0 < e
      → occurs e xs ≡ 0
      → Posted l xs e a type (channel_buffer_nolock e l a type)
  unfolding channel_buffer_nolock
  channel_buffer_nolock-Posted l [] e a type queue new fresh =
      let first : (l.pending_head == null) ≡ true = ground (arith, queue.chained) in
      rw first (record {
        queue = record {
          chained = (refl, new, ap (λ t. t.next) (assign_self l.elements e _));
          once = λ c. ground arith;
          tail = refl;
        };
        newest = ap (λ t. (t.type, t.channel)) (assign_self l.elements e _);
        older = λ c h. absurd (omega arith);
        same = refl;
      })
  channel_buffer_nolock-Posted l (x ∷ xs) e a type queue new fresh =
      let more : (l.pending_head == null) ≡ false =
        ground (arith, queue.chained.0, queue.chained.1) in
      let t = l.pending_tail in
      let at_end : t ≡ last_or x xs = queue.tail in
      let inside : 0 < occurs t (x ∷ xs) =
        subst (λ t. 0 < occurs t (x ∷ xs)) (sym at_end) (occurs-last_or x xs) in
      let apart = ne_of_occurs e t (x ∷ xs) fresh inside in
      let newest : Element = record { type = type; channel = a; next = null } in
      let els = assign l.elements e newest in
      let els' = assign els t (record (els t) { next = e }) in
      let other : (c : Addr) → 0 < occurs c (x ∷ xs) → els c ≡ l.elements c = λ c h.
        assign_other l.elements e c newest
          (let differ = ne_of_occurs e c (x ∷ xs) fresh h in ground arith) in
      let new_one : els' e ≡ newest =
        assign_other els t e (record (els t) { next = e }) apart
        ∙ assign_self l.elements e newest in
      rw more (record {
        queue = record {
          chained =
              Chained-append l.elements els' l.pending_head x xs e queue.chained queue.once
                (λ c h differ.
                  ap (λ t. t.next)
                    (assign_other els t c (record (els t) { next = e })
                        (ap (λ q. c == q) at_end ∙ differ)
                      ∙ other c h))
                (ap (λ c. (els' c).next) (sym at_end)
                  ∙ ap (λ t. t.next) (assign_self els t (record (els t) { next = e })))
                (ap (λ t. t.next) new_one) new;
          once = λ c. elim (Bool-cases (c == e)) [
            | inl same ↦
                let none_there : occurs c (x ∷ xs) ≡ 0 =
                  ap (λ c. occurs c (x ∷ xs)) (==→eq c e same) ∙ fresh in
                ground (arith, occurs-snoc c (x ∷ xs) e)
            | inr differ ↦ ground (arith, occurs-snoc c (x ∷ xs) e, queue.once c)
          ];
          tail = sym (last_of_append (x ∷ xs) e);
        };
        newest = ap (λ t. (t.type, t.channel)) new_one;
        older = λ c h. elim (Bool-cases (c == t)) [
          | inl here ↦
              let same = ==→eq c t here in
              ap (change_of els') same
              ∙ ap (λ t. (t.type, t.channel)) (assign_self els t (record (els t) { next = e }))
              ∙ sym (ap (change_of els) same)
              ∙ ap (λ t. (t.type, t.channel)) (other c h)
          | inr differ ↦
              ap (λ t. (t.type, t.channel))
                (assign_other els t c (record (els t) { next = e }) differ ∙ other c h)
        ];
        same = refl;
      })

module _ {S : Type 0} (d : Dispatcher S) where
  -- What posting from another thread does: the change is queued, and one byte wakes the loop up.
  -- In the loop's own thread the change is carried out at once, behind those that were queued.
  pub do_channel_event-queued :
      (fuel : ℕ) (grants : Addr → Bool) (l : EventLoop S) (xs : List Addr) (e a : Addr) (type : ℕ)
      → l.is_handle_pending ≡ false
      → IsQueue l xs
      → 0 < e
      → occurs e xs ≡ 0
      → length xs + 1 < fuel
      → (do_channel_event d fuel grants false e l a type
          ≡ some (wakeup (channel_buffer_nolock e l a type)))
        × (do_channel_event d fuel grants true e l a type
            ≡ (elim (apply_changes d
                (changes_of grants (channel_buffer_nolock e l a type).elements (xs ++ (e ∷ [])))
                (record (channel_buffer_nolock e l a type) { is_handle_pending = true })) [
                  | none ↦ none
                  | some l' ↦ some (emptied l')
                ]))
  unfolding do_channel_event
  do_channel_event-queued fuel grants l xs e a type idle queue new fresh enough =
      let posted = channel_buffer_nolock-Posted l xs e a type queue new fresh in
      (
        rw (idle, do_channel_event) refl,
        ap
              (λ t.
                if t
                then none
                else handle_pending_channel d fuel grants (channel_buffer_nolock e l a type))
              idle
            ∙ (handle_pending_channel-apply_changes d fuel grants (channel_buffer_nolock e l a type)
                (xs ++ (e ∷ [])) posted.queue (omega (arith, length-append xs (e ∷ [])))),
      )
