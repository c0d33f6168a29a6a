-- ===== src/EventLoop/Watch.antt =====
-- The descriptors that the array for poll holds, and what `poll_add`, `poll_del` and `poll_update` do to
-- them.
use cpp_example_code.Base.{
  ℕ, suc, ◌+◌, ◌<◌, ◌≡◌, refl, ap, inl, inr, true, false, Option, none, some, List, [], ◌∷◌, arith,
}
use cpp_example_code.Base.Tests.{◌==◌, if◌then◌else◌, Bool-cases, ==_refl}
use cpp_example_code.Base.Lists.{length}
use cpp_example_code.Base.Occurs.{one_if}
use cpp_example_code.EventLoop.State.{is_negative, minus_one}
use cpp_example_code.EventLoop.Poll.{PollFd, poll_init, put_fd, drop_fd, set_events}

-- the number of places for a descriptor
abbrev pub watching : ℕ → List PollFd → ℕ
watching fd [] = 0
watching fd (p ∷ set) = one_if (p.fd == fd) + watching fd set

-- the number of free places
abbrev pub free_places : List PollFd → ℕ
free_places [] = 0
free_places (p ∷ set) = one_if (is_negative p.fd) + free_places set

-- the events that the first place for a descriptor asks for
abbrev pub asked : ℕ → List PollFd → Option ℕ
asked fd [] = none
asked fd (p ∷ set) = if p.fd == fd then some p.events else asked fd set

pub length-poll_init : (memory : List PollFd) → length (poll_init memory) ≡ length memory
unfolding poll_init
length-poll_init [] = refl
length-poll_init (p ∷ set) = ap suc (length-poll_init set)

-- After `poll_init` every place is free.
pub free_places-poll_init : (memory : List PollFd) → free_places (poll_init memory) ≡ length memory
unfolding poll_init
free_places-poll_init [] = refl
free_places-poll_init (p ∷ set) = omega (arith, free_places-poll_init set)

pub watching-poll_init :
    (fd : ℕ) (memory : List PollFd) → fd < minus_one → watching fd (poll_init memory) ≡ 0
unfolding poll_init
watching-poll_init fd [] small = refl
watching-poll_init fd (p ∷ set) small = ground (arith, watching-poll_init fd set small)

pub length-put_fd : (fd ev : ℕ) (set : List PollFd) → length (put_fd fd ev set) ≡ length set
unfolding put_fd
length-put_fd fd ev [] = refl
length-put_fd fd ev (p ∷ set) = elim (Bool-cases (is_negative p.fd)) [
  | inl e ↦ rw e refl
  | inr e ↦ rw e (ap suc (length-put_fd fd ev set))
]

pub length-drop_fd : (fd : ℕ) (set : List PollFd) → length (drop_fd fd set) ≡ length set
unfolding drop_fd
length-drop_fd fd [] = refl
length-drop_fd fd (p ∷ set) = elim (Bool-cases (p.fd == fd)) [
  | inl e ↦ rw e refl
  | inr e ↦ rw e (ap suc (length-drop_fd fd set))
]

pub length-set_events : (fd ev : ℕ) (set : List PollFd) → length (set_events fd ev set) ≡ length set
unfolding set_events
length-set_events fd ev [] = refl
length-set_events fd ev (p ∷ set) = elim (Bool-cases (p.fd == fd)) [
  | inl e ↦ rw e refl
  | inr e ↦ rw e (ap suc (length-set_events fd ev set))
]

-- With a free place, `poll_add` gives the descriptor one more place and the others what they had.
pub watching-put_fd :
    (q fd ev : ℕ) (set : List PollFd)
    → is_negative q ≡ false
    → 0 < free_places set
    → watching q (put_fd fd ev set) ≡ one_if (fd == q) + watching q set
unfolding put_fd
watching-put_fd q fd ev [] used room = absurd (omega arith)
watching-put_fd q fd ev (p ∷ set) used room = elim (Bool-cases (is_negative p.fd)) [
  | inl e ↦ rw e (let other : (p.fd == q) ≡ false = ground arith in rw other (omega arith))
  | inr e ↦ rw e (ground (arith, watching-put_fd q fd ev set used (ground arith)))
]

-- Without one it drops the descriptor and says nothing.
pub put_fd_full : (fd ev : ℕ) (set : List PollFd) → free_places set ≡ 0 → put_fd fd ev set ≡ set
unfolding put_fd
put_fd_full fd ev [] full = refl
put_fd_full fd ev (p ∷ set) full =
    let busy : is_negative p.fd ≡ false = ground arith in
    rw busy (ap (λ t. p ∷ t) (put_fd_full fd ev set (omega arith)))

pub free_places-put_fd :
    (fd ev : ℕ) (set : List PollFd)
    → is_negative fd ≡ false
    → 0 < free_places set
    → suc (free_places (put_fd fd ev set)) ≡ free_places set
unfolding put_fd
free_places-put_fd fd ev [] used room = absurd (omega arith)
free_places-put_fd fd ev (p ∷ set) used room = elim (Bool-cases (is_negative p.fd)) [
  | inl e ↦ rw (e, used) (omega arith)
  | inr e ↦ rw e (ground (arith, free_places-put_fd fd ev set used (ground arith)))
]

pub watching-drop_fd :
    (q fd : ℕ) (set : List PollFd)
    → is_negative q ≡ false
    → 0 < watching fd set
    → watching q (drop_fd fd set) + one_if (fd == q) ≡ watching q set
unfolding drop_fd
watching-drop_fd q fd [] used inside = absurd (omega arith)
watching-drop_fd q fd (p ∷ set) used inside = elim (Bool-cases (p.fd == fd)) [
  | inl e ↦ rw e (ground arith)
  | inr e ↦ rw e (ground (arith, watching-drop_fd q fd set used (ground arith)))
]

pub watching-set_events :
    (q fd ev : ℕ) (set : List PollFd) → watching q (set_events fd ev set) ≡ watching q set
unfolding set_events
watching-set_events q fd ev [] = refl
watching-set_events q fd ev (p ∷ set) = elim (Bool-cases (p.fd == fd)) [
  | inl e ↦ rw e refl
  | inr e ↦ rw e (ap (λ n. one_if (p.fd == q) + n) (watching-set_events q fd ev set))
]

-- `poll_update` changes what the descriptor's place asks for.
pub asked-set_events :
    (fd ev : ℕ) (set : List PollFd)
    → 0 < watching fd set
    → asked fd (set_events fd ev set) ≡ some ev
unfolding set_events
asked-set_events fd ev [] inside = absurd (omega arith)
asked-set_events fd ev (p ∷ set) inside = elim (Bool-cases (p.fd == fd)) [
  | inl e ↦ rw (e, set_events) (rw e refl)
  | inr e ↦ rw (e, set_events) (rw e (asked-set_events fd ev set (ground arith)))
]

-- The other descriptors' places ask for what they asked for.
pub asked-set_events_other :
    (q fd ev : ℕ) (set : List PollFd)
    → (fd == q) ≡ false
    → asked q (set_events fd ev set) ≡ asked q set
unfolding set_events
asked-set_events_other q fd ev [] differ = refl
asked-set_events_other q fd ev (p ∷ set) differ = elim (Bool-cases (p.fd == fd)) [
  | inl e ↦ rw (e, set_events) (let other : (p.fd == q) ≡ false = ground arith in rw other refl)
  | inr e ↦
      rw (e, set_events)
        (ap (λ t. if p.fd == q then some p.events else t)
          (asked-set_events_other q fd ev set differ))
]

pub asked-drop_fd_other :
    (q fd : ℕ) (set : List PollFd)
    → is_negative q ≡ false
    → (fd == q) ≡ false
    → asked q (drop_fd fd set) ≡ asked q set
unfolding drop_fd
asked-drop_fd_other q fd [] used differ = refl
asked-drop_fd_other q fd (p ∷ set) used differ = elim (Bool-cases (p.fd == fd)) [
  | inl e ↦
      let other : (p.fd == q) ≡ false = ground arith in
      let free : (minus_one == q) ≡ false = ground arith in rw (e, drop_fd) (rw (other, free) refl)
  | inr e ↦
      rw (e, drop_fd)
        (ap (λ t. if p.fd == q then some p.events else t)
          (asked-drop_fd_other q fd set used differ))
]

pub asked-put_fd_other :
    (q fd ev : ℕ) (set : List PollFd)
    → is_negative q ≡ false
    → (fd == q) ≡ false
    → asked q (put_fd fd ev set) ≡ asked q set
unfolding put_fd
asked-put_fd_other q fd ev [] used differ = refl
asked-put_fd_other q fd ev (p ∷ set) used differ = elim (Bool-cases (is_negative p.fd)) [
  | inl e ↦
      let other : (p.fd == q) ≡ false = ground arith in rw (e, put_fd) (rw (other, differ) refl)
  | inr e ↦
      rw (e, put_fd)
        (ap (λ t. if p.fd == q then some p.events else t)
          (asked-put_fd_other q fd ev set used differ))
]

-- A descriptor without a place gets one that asks for the events.
pub asked-put_fd :
    (fd ev : ℕ) (set : List PollFd)
    → watching fd set ≡ 0
    → 0 < free_places set
    → asked fd (put_fd fd ev set) ≡ some ev
unfolding put_fd
asked-put_fd fd ev [] none_yet room = absurd (omega arith)
asked-put_fd fd ev (p ∷ set) none_yet room = elim (Bool-cases (is_negative p.fd)) [
  | inl e ↦ rw (e, put_fd) (let self : (fd == fd) ≡ true = ==_refl fd in rw self refl)
  | inr e ↦
      let other : (p.fd == fd) ≡ false = ground arith in
      rw (e, put_fd) (rw other (asked-put_fd fd ev set (ground arith) (ground arith)))
]
