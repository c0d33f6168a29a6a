-- ===== src/EventLoop/Dispatch.antt =====
-- `poll_dispatch`: the callbacks that it makes, in order, and where it stops.
use cpp_example_code.Base.{
  ℕ, zero, suc, ◌+◌, ◌-◌, ◌<◌, ◌≡◌, refl, sym, ap, ◌∙◌, inl, inr, Bool, true, false, ◌&&◌, not,
  Option, some, List, [], ◌∷◌, arith,
}
use cpp_example_code.Base.Tests.{leb, ltb, ◌==◌, if◌then◌else◌, Bool-cases}
use cpp_example_code.Base.Lists.{length, drop, drop-get_elem?}
use cpp_example_code.Base.Occurs.{one_if}
use cpp_example_code.EventLoop.State.{is_negative, event_read, event_write}
use cpp_example_code.EventLoop.Poll.{
  PollFd, init_poll_size, has_bits, activate_place, dispatch_place, dispatch_from, poll_dispatch,
}

-- A place that poll has found ready.
abbrev pub is_ready : PollFd → Bool
is_ready p = not (is_negative p.fd) && (ltb 0 p.revents && ltb p.revents 32768)

-- what poll returns: the number of ready places
abbrev pub count_ready : List PollFd → ℕ
count_ready [] = 0
count_ready (p ∷ set) = one_if (is_ready p) + count_ready set

module _ {ℓ} {S : Type ℓ} (rd wr : ℕ) (set_of : S → List PollFd) (run : S → ℕ → ℕ → S)
    (stays : (s : S) (fd event : ℕ) → set_of (run s fd event) ≡ set_of s) where
  -- the read callback of a ready place, then its write callback, each where poll reports it
  abbrev pub run_place : PollFd → S → S
  run_place p s =
      let s' = if has_bits p.revents rd then run s p.fd event_read else s in
      if has_bits p.revents wr then run s' p.fd event_write else s'

  -- the callbacks of all ready places, in the array's order
  abbrev pub run_ready : List PollFd → S → S
  run_ready [] s = s
  run_ready (p ∷ set) s = if is_ready p then run_ready set (run_place p s) else run_ready set s

  abbrev activate : S → ℕ → ℕ → Option S
  activate s fd event = some (run s fd event)

  run_place_stays : (p : PollFd) (s : S) → set_of (run_place p s) ≡ set_of s
  run_place_stays p s = elim (Bool-cases (has_bits p.revents rd)) [
    | inl r ↦ elim (Bool-cases (has_bits p.revents wr)) [
      | inl w ↦
          simp (r, w) (stays (run s p.fd event_read) p.fd event_write ∙ stays s p.fd event_read)
      | inr w ↦ simp (r, w) (stays s p.fd event_read)
    ]
    | inr r ↦ elim (Bool-cases (has_bits p.revents wr)) [
      | inl w ↦ simp (r, w) (stays s p.fd event_write)
      | inr w ↦ simp (r, w) refl
    ]
  ]

  activate_place-run :
      (p : PollFd) (s : S) → activate_place rd wr set_of activate p s ≡ some (run_place p s)
  unfolding activate_place
  activate_place-run p s = elim (Bool-cases (has_bits p.revents rd)) [
    | inl r ↦ elim (Bool-cases (has_bits p.revents wr)) [
      | inl w ↦ rw (r, activate_place, w) refl
      | inr w ↦ rw (r, activate_place, w) refl
    ]
    | inr r ↦ elim (Bool-cases (has_bits p.revents wr)) [
      | inl w ↦ rw (r, activate_place, w) refl
      | inr w ↦ rw (r, activate_place, w) refl
    ]
  ]

  dispatch_place_idle :
      (p : PollFd) (ready : ℕ) (s : S)
      → is_ready p ≡ false
      → dispatch_place rd wr set_of activate p ready s ≡ some (false, ready, s)
  unfolding dispatch_place
  dispatch_place_idle p ready s idle = elim (Bool-cases (is_negative p.fd)) [
    | inl free ↦ rw (free, dispatch_place) refl
    | inr used ↦
        let quiet : (ltb 0 p.revents && ltb p.revents 32768) ≡ false = ground arith in
        rw (used, quiet, dispatch_place) refl
  ]

  dispatch_place_busy :
      (p : PollFd) (ready : ℕ) (s : S)
      → is_ready p ≡ true
      → dispatch_place rd wr set_of activate p ready s
        ≡ some (leb ready 1, ready - 1, run_place p s)
  unfolding dispatch_place
  dispatch_place_busy p ready s busy =
      let used : is_negative p.fd ≡ false = ground arith in
      let loud : (ltb 0 p.revents && ltb p.revents 32768) ≡ true = ground arith in
      rw (used, loud, activate_place-run p s, dispatch_place) refl

  run_ready_none : (set : List PollFd) (s : S) → count_ready set ≡ 0 → run_ready set s ≡ s
  run_ready_none [] s h = refl
  run_ready_none (p ∷ set) s h =
      let idle : is_ready p ≡ false = ground arith in rw idle (run_ready_none set s (omega arith))

  dispatch_rest :
      (fuel i ready : ℕ) (s : S) (rest : List PollFd)
      → drop i (set_of s) ≡ rest
      → ready ≡ count_ready rest
      → 0 < ready
      → length rest < fuel
      → dispatch_from rd wr set_of activate fuel i ready s ≡ some (run_ready rest s)
  unfolding dispatch_from dispatch_place
  dispatch_rest zero i ready s rest at counted some_ready enough = absurd (omega arith)
  dispatch_rest (suc fuel) i ready s [] at counted some_ready enough = absurd (omega arith)
  dispatch_rest (suc fuel) i ready s (p ∷ rest) at counted some_ready enough =
      let (here, behind) = drop-get_elem? i (set_of s) p rest at in
      elim (Bool-cases (is_ready p)) [
        | inr idle ↦
            rw (here, dispatch_place_idle p ready s idle, dispatch_from, idle)
              (dispatch_rest fuel (suc i) ready s rest behind (ground (arith, counted)) some_ready
                (omega arith))
        | inl busy ↦
            let seen : ready - 1 ≡ count_ready rest = ground (arith, counted) in
            elim (Bool-cases (leb ready 1)) [
              | inl last ↦
                  rw (here, dispatch_place_busy p ready s busy, last, dispatch_from, busy)
                    (ap some (sym (run_ready_none rest (run_place p s) (ground arith))))
              | inr more ↦
                  rw (here, dispatch_place_busy p ready s busy, more, dispatch_from, busy)
                    (dispatch_rest fuel (suc i) (ready - 1) (run_place p s) rest
                      (ap (drop (suc i)) (run_place_stays p s) ∙ behind) seen (ground arith)
                      (omega arith))
            ]
      ]

  -- `poll_dispatch` on an array of INIT_POLL_SIZE places, where poll returned the number of ready ones
  -- and the callbacks leave the array alone, makes the callbacks of the ready places, each once and in
  -- the array's order, and does not look behind the array.
  pub poll_dispatch-run_ready :
      (ready : ℕ) (s : S)
      → length (set_of s) ≡ init_poll_size
      → ready ≡ count_ready (set_of s)
      → poll_dispatch rd wr set_of activate ready s ≡ some (run_ready (set_of s) s)
  unfolding poll_dispatch
  poll_dispatch-run_ready ready s width counted = elim (Bool-cases (ready == 0)) [
    | inl none_ready ↦
        rw (none_ready, poll_dispatch)
          (ap some (sym (run_ready_none (set_of s) s (ground (arith, counted)))))
    | inr some_ready ↦
        rw (some_ready, poll_dispatch)
          (dispatch_rest (init_poll_size + 1) 0 ready s (set_of s) refl counted (ground arith)
            (omega arith))
  ]
