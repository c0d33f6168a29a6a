-- ===== src/EventLoop/Dispatchers/Tests.antt =====
-- The two dispatchers on one report, at an array with one ready place.
use cpp_example_code.Base.{
  ℕ, zero, suc, ◌≡◌, refl, true, Option, none, some, List, [], ◌∷◌, ◌++◌, arith,
}
use cpp_example_code.Base.Lists.{replicate, length-replicate}
use cpp_example_code.EventLoop.State.{minus_one, Channel}
use cpp_example_code.EventLoop.Poll.{PollFd, poll_dispatch}
use cpp_example_code.EventLoop.Dispatch.{count_ready}
use cpp_example_code.EventLoop.Epoll.{
  Flags, EpollCtl, Report, epoll_events, epoll_add, dispatch_report, dispatch_reports,
  epoll_dispatch,
}
use cpp_example_code.EventLoop.Dispatchers.{
  Reports, all_done, idle, ready, poll_dispatch-epoll_dispatch,
}

-- the values of one system
abbrev flags : Flags
flags = record { epollin = 1; epollout = 4; epollerr = 8; epollhup = 16 }

abbrev free : PollFd
free = record { fd = minus_one; events = 0; revents = 0 }

abbrev ready_one : PollFd
ready_one = record { fd = 5; events = 320; revents = 320 }

abbrev report_one : Report
report_one = record { fd = 5; events = 5 }

nothing_else : (n : ℕ) → Reports 64 256 flags (replicate n free) []
nothing_else zero = all_done
nothing_else (suc n) = idle free (replicate n free) [] refl (nothing_else n)

-- a client that writes the events down
abbrev Noted : Type 0
Noted = List PollFd × List (ℕ × ℕ)

abbrev set_of : Noted → List PollFd
set_of (set, seen) = set

abbrev note : Noted → ℕ → ℕ → Noted
note (set, seen) fd event = (set, seen ++ ((fd, event) ∷ []))

abbrev shut : Noted → ℕ → Noted
shut (set, seen) fd = (set, seen ++ ((fd, 0) ∷ []))

abbrev places : List PollFd
places = ready_one ∷ replicate 1023 free

poll_dispatch-epoll_dispatch_example :
    poll_dispatch 64 256 set_of
      (λ s fd event. some (note s fd event))
      (count_ready places)
      (places, [])
    ≡ epoll_dispatch flags
        (λ s fd event. some (note s fd event))
        shut
        (some (report_one ∷ []))
        (places, [])
poll_dispatch-epoll_dispatch_example =
    poll_dispatch-epoll_dispatch 64 256 flags set_of note shut (λ s fd event. refl) places
      (report_one ∷ []) (places, []) refl (omega (arith, length-replicate 1023 free))
      (ready ready_one report_one (replicate 1023 free) [] refl
        (record { fd = refl; reads = refl; writes = refl; fine = refl }) (nothing_else 1023))

abbrev seen_by : Option Noted → List (ℕ × ℕ)
seen_by none = []
seen_by (some (set, seen)) = seen

-- Both callbacks of a report, and an error, which closes the descriptor and calls nothing.
reports_test :
    seen_by (
      epoll_dispatch flags
        (λ s fd event. some (note s fd event))
        shut
        (some (report_one ∷ record { fd = 6; events = 9 } ∷ []))
        ([], []))
    ≡ (5, 2) ∷ (5, 4) ∷ (6, 0) ∷ []
unfolding epoll_dispatch dispatch_reports dispatch_report
reports_test = refl

-- epoll_ctl on a list of descriptors with their events
abbrev kernel : EpollCtl (List (ℕ × ℕ))
kernel = record {
  ctl_add = λ k fd events. some ((fd, events) ∷ k);
  ctl_del = λ k fd events. some [];
  ctl_mod = λ k fd events. some ((fd, events) ∷ []);
}

abbrev both_events : Channel
both_events = record {
  fd = 7;
  events = 6;
  read_callback = true;
  write_callback = true;
  callback_data = 1;
}

added_test : epoll_add flags kernel (some []) both_events ≡ some ((7, 5) ∷ [])
unfolding epoll_add epoll_events
added_test = refl
