-- ===== src/EventLoop/Pool.antt =====
-- `thread_pool_get_loop`: the loops are chosen in turn.
use cpp_example_code.Base.{
  ℕ, zero, suc, ◌+◌, ◌<◌, ◌≡◌, refl, sym, ap, ◌∙◌, true, false, ◌||◌, not, Option, none, some, List,
  [], ◌∷◌, arith,
}
use mathlib.Core.Option.{none-ne-some, some-injective}
use cpp_example_code.Base.Tests.{leb, if◌then◌else◌}
use cpp_example_code.Base.Lists.{length, get_or, get_elem?, drop, drop-get_elem?}
use cpp_example_code.EventLoop.State.{Addr, null, is_negative}
use cpp_example_code.EventLoop.Ops.{ThreadPool, thread_pool_get_loop}

-- A pool that has been started with as many threads as its number says.
pub record IsStarted (t : ThreadPool) : Type 0 where
  pub started : t.started ≡ true
  pub loops : length t.event_loops ≡ t.thread_number
  pub several : 0 < t.thread_number
  pub fits : t.thread_number < 2147483648

-- the loops that `n` calls in a row choose, and the pool after them
unfoldable pub choices : ℕ → ThreadPool → Option (List Addr × ThreadPool)
choices zero t = some ([], t)
choices (suc n) t = elim (thread_pool_get_loop t) [
  | none ↦ none
  | some (loop, t') ↦ elim (choices n t') [
    | none ↦ none
    | some (loops, t'') ↦ some (loop ∷ loops, t'')
  ]
]

-- the pool at a position
abbrev pub moved_to : ThreadPool → ℕ → ThreadPool
moved_to t p = record t { position = p }

get_or-get_elem? :
    (xs : List Addr) (i : ℕ) (x : Addr) → get_elem? xs i ≡ some x → get_or xs i null ≡ x
get_or-get_elem? [] i x e = absurd (none-ne-some x e)
get_or-get_elem? (y ∷ ys) zero x e = some-injective y x e
get_or-get_elem? (y ∷ ys) (suc i) x e = get_or-get_elem? ys i x e

pub get_loop_at :
    (t : ThreadPool) (p : ℕ) (x : Addr)
    → IsStarted t
    → get_elem? t.event_loops p ≡ some x
    → thread_pool_get_loop (moved_to t p)
      ≡ some (x, moved_to t (if leb t.thread_number (p + 1) then 0 else p + 1))
unfolding thread_pool_get_loop
get_loop_at t p x s here =
    let threads : (leb t.thread_number 0 || is_negative t.thread_number) ≡ false =
      ground (arith, s.several, s.fits) in
    let left = moved_to t (if leb t.thread_number (p + 1) then 0 else p + 1) in
    ap
      (λ b.
        if not b
        then none
        else if leb t.thread_number 0 || is_negative t.thread_number
        then some (t.main_loop, moved_to t p)
        else some (get_or t.event_loops p null, left))
      s.started
    ∙ ap
        (λ b.
          if b then some (t.main_loop, moved_to t p) else some (get_or t.event_loops p null, left))
        threads
    ∙ ap (λ n. some (n, left)) (get_or-get_elem? t.event_loops p x here)

choices_from :
    (t : ThreadPool) (p : ℕ) (x : Addr) (rest : List Addr)
    → IsStarted t
    → drop p t.event_loops ≡ x ∷ rest
    → p + suc (length rest) ≡ t.thread_number
    → choices (suc (length rest)) (moved_to t p) ≡ some (x ∷ rest, moved_to t 0)
unfolding choices
choices_from t p x [] s at counted =
    let (here, behind) = drop-get_elem? p t.event_loops x [] at in
    let last : leb t.thread_number (p + 1) ≡ true = ground (arith, counted) in
    rw (get_loop_at t p x s here, last, choices) refl
choices_from t p x (y ∷ ys) s at counted =
    let (here, behind) = drop-get_elem? p t.event_loops x (y ∷ ys) at in
    let more : leb t.thread_number (p + 1) ≡ false = ground (arith, counted) in
    let next : p + 1 ≡ suc p = omega arith in
    rw (get_loop_at t p x s here, more, next, choices)
      (rw (choices_from t (suc p) y ys s behind (omega (arith, counted))) refl)

-- As many calls as there are threads, from the first position on, choose every loop once, in the
-- order of the threads, and end at the first position again.
pub choices-event_loops :
    (t : ThreadPool)
    → IsStarted t
    → t.position ≡ 0
    → choices t.thread_number t ≡ some (t.event_loops, t)
choices-event_loops t s first = from_loops t.event_loops refl
  where
    from_loops : (xs : List Addr) → t.event_loops ≡ xs → choices t.thread_number t ≡ some (xs, t)
    from_loops [] e = absurd (omega (arith, s.several, s.loops, ap length e))
    from_loops (x ∷ xs) e =
        let count : t.thread_number ≡ suc (length xs) = sym s.loops ∙ ap length e in
        let here : moved_to t t.position ≡ moved_to t 0 = ap (moved_to t) first in
        ap (λ n. choices n t) count
        ∙ ap (choices (suc (length xs))) here
        ∙ choices_from t 0 x xs s e (omega (arith, count))
        ∙ ap (λ u. some (x ∷ xs, u)) (sym here)
