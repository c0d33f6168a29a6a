-- ===== src/EventLoop/State.antt =====
-- The types of httptest-geektime/lib/channel.h, channel_map.h, event_loop.h, event_dispatcher.h and
-- thread_pool.h. A descriptor is an int and is kept as its pattern of 32 bits; a channel and an
-- element of the queue are known by their addresses, and NULL is 0.
use cpp_example_code.Base.{ℕ, Bool, List}
use cpp_example_code.Base.Tests.{leb}

abbrev pub Addr : Type 0
Addr = ℕ

abbrev pub null : Addr
null = 0

-- `fd < 0`
abbrev pub is_negative : ℕ → Bool
is_negative fd = leb 2147483648 fd

-- -1
abbrev pub minus_one : ℕ
minus_one = 4294967295

abbrev pub event_read : ℕ
event_read = 2

abbrev pub event_write : ℕ
event_write = 4

-- `struct channel`; a callback is whether there is one.
pub record Channel : Type 0 where
  pub fd : ℕ
  pub events : ℕ
  pub read_callback : Bool
  pub write_callback : Bool
  pub callback_data : Addr

-- `struct channel_map`
pub record ChannelMap : Type 0 where
  pub entries : List Addr
  pub nentries : ℕ

-- `struct channel_element`
pub record Element : Type 0 where
  pub type : ℕ
  pub channel : Addr
  pub next : Addr

-- `struct event_dispatcher`, less `init` and `clear`, over the dispatcher's data; `del` answers whether
-- it failed.
pub record Dispatcher (S : Type 0) : Type 0 where
  pub add : S → Channel → S
  pub del : S → Channel → Bool × S
  pub update : S → Channel → S

-- `struct event_loop` with the channels and the queue's elements at their addresses, and the bytes
-- written to its socket pair.
pub record EventLoop (S : Type 0) : Type 0 where
  pub event_dispatcher_data : S
  pub channel_map : ChannelMap
  pub is_handle_pending : Bool
  pub pending_head : Addr
  pub pending_tail : Addr
  pub elements : Addr → Element
  pub channels : Addr → Channel
  pub wakeups : ℕ
