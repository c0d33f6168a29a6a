-- ===== src/EventLoop/Dispatchers.antt =====
-- The dispatchers of poll_dispatcher.c and epoll_dispatcher.c make the same callbacks.
mod Tests
use cpp_example_code.Base.{
  ℕ, ◌≡◌, refl, sym, ap, ◌∙◌, inl, inr, Bool, true, false, ◌||◌, Option, none, some, List, [], ◌∷◌,
  arith,
}
use cpp_example_code.Base.Tests.{if◌then◌else◌, Bool-cases}
use cpp_example_code.Base.Lists.{length}
use cpp_example_code.EventLoop.State.{event_read, event_write}
use cpp_example_code.EventLoop.Poll.{PollFd, init_poll_size, has_bits, poll_dispatch}
use cpp_example_code.EventLoop.Dispatch.{
  is_ready, count_ready, run_place, run_ready, poll_dispatch-run_ready,
}
use cpp_example_code.EventLoop.Epoll.{
  Flags, Report, dispatch_report, dispatch_reports, epoll_dispatch,
}

module _ (rd wr : ℕ) (flags : Flags) where
  -- A report of epoll says what poll says of a place, and neither an error nor a hang-up.
  pub record Agrees (p : PollFd) (r : Report) : Type 0 where
    pub fd : r.fd ≡ p.fd
    pub reads : has_bits r.events flags.epollin ≡ has_bits p.revents rd
    pub writes : has_bits r.events flags.epollout ≡ has_bits p.revents wr
    pub fine : (has_bits r.events flags.epollerr || has_bits r.events flags.epollhup) ≡ false

  -- The reports are those of the ready places, in the array's order.
  pub data Reports : List PollFd → List Report → Type 0 where
    all_done : Reports [] []
    idle :
        (p : PollFd) (set : List PollFd) (reports : List Report)
        → is_ready p ≡ false
        → Reports set reports
        → Reports (p ∷ set) reports
    ready :
        (p : PollFd) (r : Report) (set : List PollFd) (reports : List Report)
        → is_ready p ≡ true
        → Agrees p r
        → Reports set reports
        → Reports (p ∷ set) (r ∷ reports)

  module _ {ℓ} {S : Type ℓ} (set_of : S → List PollFd) (run : S → ℕ → ℕ → S) (close : S → ℕ → S)
      (stays : (s : S) (fd event : ℕ) → set_of (run s fd event) ≡ set_of s) where
    abbrev activates : S → ℕ → ℕ → Option S
    activates s fd event = some (run s fd event)

    -- the two callbacks of a report
    abbrev both : Bool → Bool → ℕ → S → Option S
    both reads writes fd s = elim (if reads then activates s fd event_read else some s) [
      | none ↦ none
      | some s' ↦ if writes then activates s' fd event_write else some s'
    ]

    both_run :
        (reads writes : Bool) (fd : ℕ) (s : S)
        → both reads writes fd s
          ≡ some (
              let s' = if reads then run s fd event_read else s in
              if writes then run s' fd event_write else s')
    both_run true true fd s = refl
    both_run true false fd s = refl
    both_run false true fd s = refl
    both_run false false fd s = refl

    dispatch_report-run :
        (p : PollFd) (r : Report) (s : S)
        → Agrees p r
        → dispatch_report flags activates close r s ≡ some (run_place rd wr set_of run stays p s)
    unfolding dispatch_report
    dispatch_report-run p r s a =
        ap
          (λ b.
            if b
            then some (close s r.fd)
            else both (has_bits r.events flags.epollin) (has_bits r.events flags.epollout) r.fd s)
          a.fine
        ∙ ap (λ n. both (has_bits r.events flags.epollin) (has_bits r.events flags.epollout) n s)
            a.fd
        ∙ ap (λ b. both b (has_bits r.events flags.epollout) p.fd s) a.reads
        ∙ ap (λ b. both (has_bits p.revents rd) b p.fd s) a.writes
        ∙ both_run (has_bits p.revents rd) (has_bits p.revents wr) p.fd s

    dispatch_reports-run :
        (set : List PollFd) (reports : List Report) (s : S)
        → Reports set reports
        → dispatch_reports flags activates close reports s
          ≡ some (run_ready rd wr set_of run stays set s)
    unfolding dispatch_reports
    dispatch_reports-run _ _ s all_done = refl
    dispatch_reports-run _ _ s (idle p set reports quiet rest) =
        rw quiet (dispatch_reports-run set reports s rest)
    dispatch_reports-run _ _ s (ready p r set reports busy agrees rest) =
        rw (busy, dispatch_report-run p r s agrees, dispatch_reports)
          (dispatch_reports-run set reports (run_place rd wr set_of run stays p s) rest)

    -- `poll_dispatch` and `epoll_dispatch` come to the same state, and both to their end, where epoll reports what
    -- poll reports, in the order of poll's array, poll returned the number of ready places of an array of
    -- INIT_POLL_SIZE, no report has an error or a hang-up, and the callbacks leave the array alone.
    pub poll_dispatch-epoll_dispatch :
        (set : List PollFd) (reports : List Report) (s : S)
        → set_of s ≡ set
        → length set ≡ init_poll_size
        → Reports set reports
        → poll_dispatch rd wr set_of activates (count_ready set) s
          ≡ epoll_dispatch flags activates close (some reports) s
    unfolding epoll_dispatch
    poll_dispatch-epoll_dispatch set reports s at width same =
        poll_dispatch-run_ready rd wr set_of run stays (count_ready set) s (ap length at ∙ width)
          (ap count_ready (sym at))
        ∙ ap (λ t. some (run_ready rd wr set_of run stays t s)) at
        ∙ sym (dispatch_reports-run set reports s same)
