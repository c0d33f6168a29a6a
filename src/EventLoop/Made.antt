-- ===== src/EventLoop/Made.antt =====
-- `event_loop_init_with_name` of httptest-geektime/lib/event_loop.c, and the loop that it makes over poll.
mod Tests
use cpp_example_code.Base.{ℕ, ◌≤◌, ◌≡◌, Bool, true, false, Option, some, List, [], ◌∷◌}
use cpp_example_code.Base.Tests.{leb, ◌==◌, if◌then◌else◌, ==_refl}
use cpp_example_code.Base.Loops.{assign}
use cpp_example_code.EventLoop.State.{
  Addr, null, is_negative, event_read, Channel, Element, Dispatcher, EventLoop,
}
use cpp_example_code.EventLoop.Map.{map_init, channel_at}
use cpp_example_code.EventLoop.Poll.{PollFd}
use cpp_example_code.EventLoop.Watch.{watching}
use cpp_example_code.EventLoop.Ops.{channel_new, do_channel_event}
use cpp_example_code.EventLoop.Pending.{IsQueue}
use cpp_example_code.EventLoop.Tracked.{Tracked}
use cpp_example_code.EventLoop.Applied.{Applied}

-- The loop before its first channel is added: `pair` is socketPair[1], whose channel is at `a`, and the loop is
-- at `self`; `set` is what the dispatcher's init has given, and the elements and channels are what the addresses
-- hold.
unfoldable pub fresh_loop :
    {S : Type 0} → S → ℕ → Addr → Addr → (Addr → Element) → (Addr → Channel) → EventLoop S
fresh_loop set pair a self elements channels = record {
  event_dispatcher_data = set;
  channel_map = map_init;
  is_handle_pending = false;
  pending_head = null;
  pending_tail = null;
  elements = elements;
  channels = assign channels a (channel_new pair event_read true false self);
  wakeups = 0;
}

module _ {S : Type 0} (d : Dispatcher S) (fuel : ℕ) (grants : Addr → Bool) (e : Addr) where
  unfoldable pub event_loop_init_with_name :
      S → ℕ → Addr → Addr → (Addr → Element) → (Addr → Channel) → Option (EventLoop S)
  event_loop_init_with_name set pair a self elements channels =
      do_channel_event d fuel grants true e (fresh_loop set pair a self elements channels) a 1

-- What a new loop is: one whose map and array for poll are in step, with the wake-up channel for socketPair[1]
-- and no other, if realloc grants the map; nothing is queued, and the channel is as it was made.
pub record Made (granted : Bool) (pair : ℕ) (a self : Addr) (out : Option (EventLoop (List PollFd)))
    : Type 0 where
  pub after : EventLoop (List PollFd)
  pub returns : out ≡ some after
  pub tracked : Tracked after
  pub wired :
      granted ≡ true → (fd : ℕ) → channel_at after.channel_map fd ≡ (if pair == fd then a else null)
  pub channel : after.channels a ≡ channel_new pair event_read true false self
  pub idle : after.is_handle_pending ≡ false
  pub queue : IsQueue after []
