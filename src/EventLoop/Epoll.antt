-- ===== src/EventLoop/Epoll.antt =====
-- httptest-geektime/lib/epoll_dispatcher.c over the kernel's epoll: what epoll_ctl does to its state is a
-- parameter, with no result where it fails, since error() then ends the process; so are the flags.
use cpp_example_code.Base.{ℕ, Bool, false, ◌||◌, Option, none, some, List, [], ◌∷◌, bit_or}
use cpp_example_code.Base.Tests.{if◌then◌else◌}
use cpp_example_code.EventLoop.State.{event_read, event_write, Channel, Dispatcher}
use cpp_example_code.EventLoop.Poll.{has_bits}

-- EPOLLIN, EPOLLOUT, EPOLLERR and EPOLLHUP
pub record Flags : Type 0 where
  pub epollin : ℕ
  pub epollout : ℕ
  pub epollerr : ℕ
  pub epollhup : ℕ

-- epoll_ctl with EPOLL_CTL_ADD, EPOLL_CTL_DEL and EPOLL_CTL_MOD, for a descriptor and events
pub record EpollCtl (K : Type 0) : Type 0 where
  pub ctl_add : K → ℕ → ℕ → Option K
  pub ctl_del : K → ℕ → ℕ → Option K
  pub ctl_mod : K → ℕ → ℕ → Option K

-- `struct epoll_event`, as far as it is used
pub record Report : Type 0 where
  pub fd : ℕ
  pub events : ℕ

module _ (flags : Flags) where
  -- the events for a channel, in `epoll_add`, `epoll_del` and `epoll_update`
  unfoldable pub epoll_events : ℕ → ℕ
  epoll_events events =
      let reads = if has_bits events event_read then bit_or 0 flags.epollin else 0 in
      if has_bits events event_write then bit_or reads flags.epollout else reads

  module _ {K : Type 0} (ctl : EpollCtl K) where
    -- The state is `none` where the process has ended.
    unfoldable pub epoll_add : Option K → Channel → Option K
    epoll_add none c = none
    epoll_add (some k) c = ctl.ctl_add k c.fd (epoll_events c.events)

    unfoldable pub epoll_del : Option K → Channel → Bool × Option K
    epoll_del none c = (false, none)
    epoll_del (some k) c = (false, ctl.ctl_del k c.fd (epoll_events c.events))

    unfoldable pub epoll_update : Option K → Channel → Option K
    epoll_update none c = none
    epoll_update (some k) c = ctl.ctl_mod k c.fd (epoll_events c.events)

    abbrev pub epoll_dispatcher : Dispatcher (Option K)
    epoll_dispatcher = record { add = epoll_add; del = epoll_del; update = epoll_update }

  module _ {ℓ} {S : Type ℓ} (activate : S → ℕ → ℕ → Option S) (close : S → ℕ → S) where
    -- one round of the loop of `epoll_dispatch`
    unfoldable pub dispatch_report : Report → S → Option S
    dispatch_report r s =
        if has_bits r.events flags.epollerr || has_bits r.events flags.epollhup
        then some (close s r.fd)
        else elim (if has_bits r.events flags.epollin then activate s r.fd event_read else some s) [
          | none ↦ none
          | some s' ↦
              if has_bits r.events flags.epollout then activate s' r.fd event_write else some s'
        ]

    unfoldable pub dispatch_reports : List Report → S → Option S
    dispatch_reports [] s = some s
    dispatch_reports (r ∷ reports) s = elim (dispatch_report r s) [
      | none ↦ none
      | some s' ↦ dispatch_reports reports s'
    ]

    -- `epoll_dispatch`, where `epoll_wait` has stored the reports, or `none` for its failure
    unfoldable pub epoll_dispatch : Option (List Report) → S → Option S
    epoll_dispatch none s = some s
    epoll_dispatch (some reports) s = dispatch_reports reports s
