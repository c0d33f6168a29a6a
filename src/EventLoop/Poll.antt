-- ===== src/EventLoop/Poll.antt =====
-- httptest-geektime/lib/poll_dispatcher.c: the array of descriptors given to poll. `pollrdnorm` and
-- `pollwrnorm` are POLLRDNORM and POLLWRNORM of the system's headers.
use cpp_example_code.Base.{
  ℕ, zero, suc, ◌+◌, ◌-◌, Bool, true, false, ◌&&◌, not, Option, none, some, List, [], ◌∷◌, bit_and,
  bit_or,
}
use cpp_example_code.Base.Tests.{leb, ltb, ◌==◌, if◌then◌else◌}
use cpp_example_code.Base.Lists.{get_elem?}
use cpp_example_code.EventLoop.State.{
  is_negative, minus_one, event_read, event_write, Channel, Dispatcher,
}

-- `struct pollfd` of the system
pub record PollFd : Type 0 where
  pub fd : ℕ
  pub events : ℕ
  pub revents : ℕ

-- INIT_POLL_SIZE
abbrev pub init_poll_size : ℕ
init_poll_size = 1024

-- `flags & bits`, as a test
abbrev pub has_bits : ℕ → ℕ → Bool
has_bits flags bits = not (bit_and flags bits == 0)

-- the loop of `poll_init`, on the memory that malloc gave
unfoldable pub poll_init : List PollFd → List PollFd
poll_init [] = []
poll_init (p ∷ set) = record p { fd = minus_one } ∷ poll_init set

-- the loop of `poll_add`: the first free place
unfoldable pub put_fd : ℕ → ℕ → List PollFd → List PollFd
put_fd fd events [] = []
put_fd fd events (p ∷ set) =
    if is_negative p.fd
    then record p { fd = fd; events = events } ∷ set
    else p ∷ put_fd fd events set

-- the loop of `poll_del`
unfoldable pub drop_fd : ℕ → List PollFd → List PollFd
drop_fd fd [] = []
drop_fd fd (p ∷ set) = if p.fd == fd then record p { fd = minus_one } ∷ set else p ∷ drop_fd fd set

-- the loop of `poll_update`
unfoldable pub set_events : ℕ → ℕ → List PollFd → List PollFd
set_events fd events [] = []
set_events fd events (p ∷ set) =
    if p.fd == fd then record p { events = events } ∷ set else p ∷ set_events fd events set

module _ (pollrdnorm pollwrnorm : ℕ) where
  -- the events to poll for a channel, in `poll_add` and `poll_update`
  unfoldable pub poll_events : ℕ → ℕ
  poll_events events =
      let reads = if has_bits events event_read then bit_or 0 pollrdnorm else 0 in
      if has_bits events event_write then bit_or reads pollwrnorm else reads

  unfoldable pub poll_add : List PollFd → Channel → List PollFd
  poll_add set channel = put_fd channel.fd (poll_events channel.events) set

  unfoldable pub poll_del : List PollFd → Channel → Bool × List PollFd
  poll_del set channel = (false, drop_fd channel.fd set)

  unfoldable pub poll_update : List PollFd → Channel → List PollFd
  poll_update set channel = set_events channel.fd (poll_events channel.events) set

  abbrev pub poll_dispatcher : Dispatcher (List PollFd)
  poll_dispatcher = record { add = poll_add; del = poll_del; update = poll_update }

  module _ {ℓ} {S : Type ℓ} (set_of : S → List PollFd) (activate : S → ℕ → ℕ → Option S) where
    -- the callbacks of one ready place
    unfoldable pub activate_place : PollFd → S → Option S
    activate_place p s =
        let reading =
          if has_bits p.revents pollrdnorm then activate s p.fd event_read else some s in
        elim reading [
          | none ↦ none
          | some s' ↦
              if has_bits p.revents pollwrnorm then activate s' p.fd event_write else some s'
        ]

    -- One round of the loop of `poll_dispatch`: whether it breaks off, what is left of the ready ones, and
    -- the state.
    unfoldable pub dispatch_place : PollFd → ℕ → S → Option (Bool × ℕ × S)
    dispatch_place p ready s =
        if is_negative p.fd
        then some (false, ready, s)
        else if ltb 0 p.revents && ltb p.revents 32768
        then (elim (activate_place p s) [
          | none ↦ none
          | some s' ↦ some (leb ready 1, ready - 1, s')
        ])
        else some (false, ready, s)

    -- The loop from `i` on, with `fuel` rounds of its INIT_POLL_SIZE + 1 left. A place is read from the
    -- array as the callbacks have left it, and the one behind the array's end has no contents.
    unfoldable pub dispatch_from : ℕ → ℕ → ℕ → S → Option S
    dispatch_from zero i ready s = some s
    dispatch_from (suc fuel) i ready s = elim (get_elem? (set_of s) i) [
      | none ↦ none
      | some p ↦ elim (dispatch_place p ready s) [
        | none ↦ none
        | some (true, ready', s') ↦ some s'
        | some (false, ready', s') ↦ dispatch_from fuel (suc i) ready' s'
      ]
    ]

    -- `poll_dispatch`, where `poll` has returned `ready` with the revents in the array
    unfoldable pub poll_dispatch : ℕ → S → Option S
    poll_dispatch ready s =
        if ready == 0 then some s else dispatch_from (init_poll_size + 1) 0 ready s
