-- ===== src/EventLoop/Tests.antt =====
-- Runs of the event loop, and its theorems at concrete loops.
use cpp_example_code.Base.{
  ℕ, ◌+◌, ◌≡◌, ◌<◌, refl, ◌∙◌, Bool, true, false, Option, none, some, List, [], ◌∷◌, ◌++◌, arith,
}
use cpp_example_code.Base.Lists.{replicate, length-replicate}
use cpp_example_code.Base.Int.{pos}
use cpp_example_code.EventLoop.State.{
  Addr, null, minus_one, event_read, Channel, Element, EventLoop,
}
use cpp_example_code.EventLoop.Map.{
  double_until, map_make_space, map_init, free_entries, map_clear, channel_at, Spacious,
  map_make_space-Spacious,
}
use cpp_example_code.EventLoop.Poll.{
  PollFd, poll_init, put_fd, drop_fd, set_events, poll_events, poll_add, poll_del, poll_update,
  poll_dispatcher, activate_place, dispatch_place, dispatch_from, poll_dispatch,
}
use cpp_example_code.EventLoop.Dispatch.{count_ready, run_ready, poll_dispatch-run_ready}
use cpp_example_code.EventLoop.Watch.{
  watching, length-poll_init, free_places-poll_init, watching-poll_init,
}
use cpp_example_code.EventLoop.Ops.{
  handle_pending_add, handle_pending_remove, handle_pending_update, handle_change, handle_from,
  handle_pending_channel, channel_buffer_nolock, wakeup, do_channel_event, channel_event_activate,
  channel_write_event_is_enabled, channel_write_event_enable, channel_write_event_disable,
  ThreadPool, thread_pool_get_loop,
}
use cpp_example_code.EventLoop.Pending.{
  IsQueue, Posted, channel_buffer_nolock-Posted, apply_changes, changes_of, emptied,
  handle_pending_channel-apply_changes,
}
use cpp_example_code.EventLoop.Tracked.{Tracked, callbacks_of, channel_event_activate-Tracked}
use cpp_example_code.EventLoop.Applied.{IsSound, adds, Applied}
use cpp_example_code.EventLoop.Change.{handle_change-Applied}
use cpp_example_code.EventLoop.Pool.{choices, choices-event_loops}

program : Unit {0}
unfolding double_until map_make_space map_init free_entries map_clear poll_init put_fd drop_fd
    set_events poll_events poll_add poll_del poll_update activate_place dispatch_place dispatch_from
    poll_dispatch handle_pending_add handle_pending_remove handle_pending_update handle_change
    handle_from handle_pending_channel channel_buffer_nolock wakeup do_channel_event
    channel_event_activate channel_write_event_is_enabled channel_write_event_enable
    channel_write_event_disable thread_pool_get_loop choices apply_changes
program = tt

-- POLLRDNORM and POLLWRNORM of one system
abbrev rdnorm : ℕ
rdnorm = 64

abbrev wrnorm : ℕ
wrnorm = 256

abbrev blank : PollFd
blank = record { fd = 0; events = 0; revents = 0 }

abbrev no_element : Addr → Element
no_element _ = record { type = 0; channel = null; next = null }

-- The channel at 5 is for descriptor 5, and so on.
abbrev readers : Addr → Channel
readers a = record {
  fd = a;
  events = event_read;
  read_callback = true;
  write_callback = false;
  callback_data = a + 100;
}

abbrev loop_over : List PollFd → EventLoop (List PollFd)
loop_over set = record {
  event_dispatcher_data = set;
  channel_map = map_init;
  is_handle_pending = false;
  pending_head = null;
  pending_tail = null;
  elements = no_element;
  channels = readers;
  wakeups = 0;
}

abbrev start : EventLoop (List PollFd)
start = loop_over (poll_init (replicate 1024 blank))

start-Tracked : Tracked start
unfolding map_init
start-Tracked = record {
  formed = refl;
  small = omega arith;
  width = length-poll_init (replicate 1024 blank) ∙ length-replicate 1024 blank;
  polled = λ fd ok. watching-poll_init fd (replicate 1024 blank) (ground arith);
  owned = λ fd there. absurd (ground arith);
}

start-IsSound : IsSound start 5 1
start-IsSound =
    adds refl (omega arith) (omega arith)
      (omega (arith, free_places-poll_init (replicate 1024 blank), length-replicate 1024 blank))

handle_change-Applied_example :
    Applied rdnorm wrnorm true 1 5 start
      (handle_change (poll_dispatcher rdnorm wrnorm) true 1 5 start)
handle_change-Applied_example =
    handle_change-Applied rdnorm wrnorm true 1 5 start start-Tracked start-IsSound

abbrev one_channel : EventLoop (List PollFd)
one_channel = handle_change-Applied_example.after

one_channel_watched : 0 < watching 5 one_channel.event_dispatcher_data
unfolding map_init
one_channel_watched =
    let r = handle_change-Applied_example in ground (arith, r.tracked.polled 5 refl, r.maps refl 5)

channel_event_activate-Tracked_example :
    (a : Addr) × ((one_channel.channels a).fd ≡ 5)
    × (channel_event_activate one_channel 5 event_read
        ≡ some (pos 0, callbacks_of (one_channel.channels a) event_read))
channel_event_activate-Tracked_example =
    channel_event_activate-Tracked one_channel 5 event_read handle_change-Applied_example.tracked
      refl one_channel_watched

nothing_queued : IsQueue start []
nothing_queued = record { chained = refl; once = λ a. omega arith; tail = refl }

channel_buffer_nolock-Posted_test : Posted start [] 900 5 1 (channel_buffer_nolock 900 start 5 1)
channel_buffer_nolock-Posted_test =
    channel_buffer_nolock-Posted start [] 900 5 1 nothing_queued (omega arith) refl

abbrev one_queued : EventLoop (List PollFd)
one_queued = channel_buffer_nolock 900 start 5 1

abbrev grants_all : Addr → Bool
grants_all _ = true

handle_pending_channel-apply_changes_example :
    handle_pending_channel (poll_dispatcher rdnorm wrnorm) 2 grants_all one_queued
    ≡ (elim (apply_changes
        (poll_dispatcher rdnorm wrnorm)
        (changes_of grants_all one_queued.elements (900 ∷ []))
        (record one_queued { is_handle_pending = true })) [
          | none ↦ none
          | some l' ↦ some (emptied l')
        ])
handle_pending_channel-apply_changes_example =
    handle_pending_channel-apply_changes (poll_dispatcher rdnorm wrnorm) 2 grants_all one_queued
      (900 ∷ []) channel_buffer_nolock-Posted_test.queue (omega arith)

map_make_space-Spacious_example : Spacious true map_init 40 (map_make_space true map_init 40 8)
unfolding map_init
map_make_space-Spacious_example =
    map_make_space-Spacious true map_init 40 8 refl (omega arith) (omega arith) (omega arith)

-- a client that writes the events down
abbrev Noted : Type 0
Noted = List PollFd × List (ℕ × ℕ)

abbrev note : Noted → ℕ → ℕ → Noted
note (set, seen) fd event = (set, seen ++ ((fd, event) ∷ []))

abbrev set_of : Noted → List PollFd
set_of (set, seen) = set

abbrev ready_one : PollFd
ready_one = record { fd = 5; events = 64; revents = 64 }

abbrev one_ready : Noted
one_ready = (ready_one ∷ replicate 1023 (record blank { fd = minus_one }), [])

poll_dispatch-run_ready_example :
    poll_dispatch rdnorm wrnorm set_of
      (λ s fd event. some (note s fd event))
      (count_ready (set_of one_ready))
      one_ready
    ≡ some (run_ready rdnorm wrnorm set_of note (λ s fd event. refl) (set_of one_ready) one_ready)
poll_dispatch-run_ready_example =
    poll_dispatch-run_ready rdnorm wrnorm set_of note (λ s fd event. refl)
      (count_ready (set_of one_ready)) one_ready
      (omega (arith, length-replicate 1023 (record blank { fd = minus_one }))) refl

abbrev pool : ThreadPool
pool = record {
  main_loop = 1;
  started = true;
  thread_number = 3;
  event_loops = 10 ∷ 20 ∷ 30 ∷ [];
  position = 0;
}

choices-event_loops_test : choices pool.thread_number pool ≡ some (pool.event_loops, pool)
choices-event_loops_test =
    choices-event_loops pool
      (record { started = refl; loops = refl; several = omega arith; fits = omega arith }) refl

-- Sessions on an array of two places.
abbrev two_places : EventLoop (List PollFd)
two_places = loop_over (poll_init (blank ∷ blank ∷ []))

abbrev fds : List PollFd → List ℕ
fds [] = []
fds (p ∷ set) = p.fd ∷ fds set

abbrev after : EventLoop (List PollFd) → Option (EventLoop (List PollFd)) → EventLoop (List PollFd)
after l none = l
after l (some l') = l'

abbrev posted_elsewhere : EventLoop (List PollFd)
posted_elsewhere =
    after two_places
      (do_channel_event (poll_dispatcher rdnorm wrnorm) 9 grants_all false 900 two_places 7 1)

abbrev posted_here : EventLoop (List PollFd)
posted_here =
    after posted_elsewhere
      (do_channel_event (poll_dispatcher rdnorm wrnorm) 9 grants_all true 901 posted_elsewhere 8 1)

posted_test :
    (fds posted_elsewhere.event_dispatcher_data ≡ minus_one ∷ minus_one ∷ [])
    × (posted_elsewhere.wakeups ≡ 1)
unfolding program
posted_test = (refl, refl)

handled_test :
    (fds posted_here.event_dispatcher_data ≡ 7 ∷ 8 ∷ []) × (posted_here.channel_map.nentries ≡ 32)
unfolding program
handled_test = (refl, refl)

-- A third channel is entered into the map, but poll never hears of it.
full_test :
    (let l =
        after posted_here (
          do_channel_event (poll_dispatcher rdnorm wrnorm) 9 grants_all true 902 posted_here 9 1) in
      channel_at l.channel_map 9 ∷ fds l.event_dispatcher_data)
    ≡ 9 ∷ 7 ∷ 8 ∷ []
unfolding program
full_test = refl

-- A removal of a descriptor without a channel reads through NULL.
removed_twice_test : handle_pending_remove (poll_dispatcher rdnorm wrnorm) posted_here 3 3 ≡ none
unfolding program
removed_twice_test = refl

-- An array whose places do not use up the number that poll returned is read behind its end.
overrun_test :
    dispatch_from rdnorm wrnorm set_of
      (λ s fd event. some (note s fd event))
      3
      0
      2
      (ready_one ∷ record blank { fd = minus_one } ∷ [], [])
    ≡ none
unfolding program
overrun_test = refl
