-- ===== src/EventLoop/Ops.antt =====
-- httptest-geektime/lib/event_loop.c, channel.c and the choice of thread_pool.c, with names as there
-- less the prefix event_loop_. `none` is a run that C does not define (a NULL or a place outside an
-- array is read) or that an assert stops. The lock orders the callers and has no model of its own:
-- each operation is one step.
use cpp_example_code.Base.{
  ℕ, zero, suc, ◌+◌, Bool, true, false, ◌&&◌, ◌||◌, not, Option, none, some, List, [], ◌∷◌, ◌++◌,
  bit_and, bit_or,
}
use cpp_example_code.Base.Tests.{leb, ◌==◌, if◌then◌else◌}
use cpp_example_code.Base.Lists.{get_or, set}
use cpp_example_code.Base.Loops.{assign}
use cpp_example_code.Base.Int.{ℤ, pos, negsuc}
use cpp_example_code.EventLoop.State.{
  Addr, null, is_negative, event_read, event_write, Channel, Dispatcher, EventLoop,
}
use cpp_example_code.EventLoop.Map.{map_make_space, channel_at}
use cpp_example_code.EventLoop.Poll.{has_bits}

-- `sizeof(struct channel *)`
abbrev pub pointer_size : ℕ
pointer_size = 8

-- the calls of an activated channel's callbacks, with the data given
pub data Callback : Type 0 where
  calls_read : Addr → Callback
  calls_write : Addr → Callback

-- `channel_new`, where there is memory
unfoldable pub channel_new : ℕ → ℕ → Bool → Bool → Addr → Channel
channel_new fd events reads writes data_at = record {
  fd = fd;
  events = events;
  read_callback = reads;
  write_callback = writes;
  callback_data = data_at;
}

-- `channel_write_event_is_enabled`, as a test
unfoldable pub channel_write_event_is_enabled : Channel → Bool
channel_write_event_is_enabled c = has_bits c.events event_write

module _ {S : Type 0} where
  -- `e` is what malloc gives.
  unfoldable pub channel_buffer_nolock : Addr → EventLoop S → Addr → ℕ → EventLoop S
  channel_buffer_nolock e l a type =
      let elements = assign l.elements e (record { type = type; channel = a; next = null }) in
      if l.pending_head == null
      then record l { elements = elements; pending_head = e; pending_tail = e }
      else record l {
        elements = assign elements l.pending_tail (record (elements l.pending_tail) { next = e });
        pending_tail = e;
      }

  unfoldable pub wakeup : EventLoop S → EventLoop S
  wakeup l = record l { wakeups = l.wakeups + 1 }

  unfoldable pub channel_event_activate : EventLoop S → ℕ → ℕ → Option (ℤ × List Callback)
  channel_event_activate l fd revents =
      if is_negative fd
      then some (pos 0, [])
      else if leb l.channel_map.nentries fd
      then some (negsuc 0, [])
      else let a = channel_at l.channel_map fd in
        let c = l.channels a in
        if a == null
        then none
        else if not (fd == c.fd)
        then none
        else some (
          pos 0,
          (if has_bits revents event_read && c.read_callback
                then calls_read c.callback_data ∷ []
                else [])
              ++ (if has_bits revents event_write && c.write_callback
                  then calls_write c.callback_data ∷ []
                  else []),
        )

module _ {S : Type 0} (d : Dispatcher S) where
  -- `granted` is what realloc answers.
  unfoldable pub handle_pending_add : Bool → EventLoop S → ℕ → Addr → Option (ℤ × EventLoop S)
  handle_pending_add granted l fd a =
      if is_negative fd
      then some (pos 0, l)
      else elim (map_make_space granted l.channel_map fd pointer_size) [
        | none ↦ none
        | some (false, map) ↦ some (negsuc 0, l)
        | some (true, map) ↦
            if channel_at map fd == null
            then some (
              pos 1,
              record l {
                channel_map = record map { entries = set map.entries fd a };
                event_dispatcher_data = d.add l.event_dispatcher_data (l.channels a);
              },
            )
            else some (pos 0, record l { channel_map = map })
      ]

  unfoldable pub handle_pending_remove : EventLoop S → ℕ → Addr → Option (ℤ × EventLoop S)
  handle_pending_remove l fd a =
      if not (fd == (l.channels a).fd)
      then none
      else if is_negative fd
      then some (pos 0, l)
      else if leb l.channel_map.nentries fd
      then some (negsuc 0, l)
      else if channel_at l.channel_map fd == null
      then none
      else let (failed, left) =
          d.del l.event_dispatcher_data (l.channels (channel_at l.channel_map fd)) in
        some (
          if failed then negsuc 0 else pos 1,
          record l {
            channel_map = record l.channel_map { entries = set l.channel_map.entries fd null };
            event_dispatcher_data = left;
          },
        )

  -- It returns nothing where it updates.
  unfoldable pub handle_pending_update : EventLoop S → ℕ → Addr → Option (Option ℤ × EventLoop S)
  handle_pending_update l fd a =
      if is_negative fd
      then some (some (pos 0), l)
      else if leb l.channel_map.nentries fd
      then none
      else if channel_at l.channel_map fd == null
      then some (some (negsuc 0), l)
      else some (
        none,
        record l { event_dispatcher_data = d.update l.event_dispatcher_data (l.channels a) },
      )

  -- one round of `event_loop_handle_pending_channel`, for an element's type and channel
  unfoldable pub handle_change : Bool → ℕ → Addr → EventLoop S → Option (EventLoop S)
  handle_change granted type a l =
      let fd = (l.channels a).fd in
      if type == 1
      then (elim (handle_pending_add granted l fd a) [ none ↦ none | some (_, l') ↦ some l' ])
      else if type == 2
      then (elim (handle_pending_remove l fd a) [ none ↦ none | some (_, l') ↦ some l' ])
      else if type == 3
      then (elim (handle_pending_update l fd a) [ none ↦ none | some (_, l') ↦ some l' ])
      else some l

  -- the loop, from an element on; `grants` is what realloc answers for each of them
  unfoldable pub handle_from : ℕ → (Addr → Bool) → Addr → EventLoop S → Option (EventLoop S)
  handle_from zero grants e l = none
  handle_from (suc fuel) grants e l =
      if e == null
      then some l
      else elim (handle_change (grants e) (l.elements e).type (l.elements e).channel l) [
        | none ↦ none
        | some l' ↦ handle_from fuel grants (l'.elements e).next l'
      ]

  unfoldable pub handle_pending_channel : ℕ → (Addr → Bool) → EventLoop S → Option (EventLoop S)
  handle_pending_channel fuel grants l =
      elim (handle_from fuel grants l.pending_head (record l { is_handle_pending = true })) [
        | none ↦ none
        | some l' ↦
            some (record l' { pending_head = null; pending_tail = null; is_handle_pending = false })
      ]

  unfoldable pub do_channel_event :
      ℕ → (Addr → Bool) → Bool → Addr → EventLoop S → Addr → ℕ → Option (EventLoop S)
  do_channel_event fuel grants same_thread e l a type =
      if l.is_handle_pending
      then none
      else if not same_thread
      then some (wakeup (channel_buffer_nolock e l a type))
      else handle_pending_channel fuel grants (channel_buffer_nolock e l a type)

  -- the channel's events with EVENT_WRITE, and the change posted
  unfoldable pub channel_write_event_enable :
      ℕ → (Addr → Bool) → Bool → Addr → EventLoop S → Addr → Option (EventLoop S)
  channel_write_event_enable fuel grants same_thread e l a =
      let c = l.channels a in
      do_channel_event fuel grants same_thread e
        (record l {
          channels = assign l.channels a (record c { events = bit_or c.events event_write });
        })
        a 3

  -- and without it: `& ~EVENT_WRITE` leaves the other 31 bits
  unfoldable pub channel_write_event_disable :
      ℕ → (Addr → Bool) → Bool → Addr → EventLoop S → Addr → Option (EventLoop S)
  channel_write_event_disable fuel grants same_thread e l a =
      let c = l.channels a in
      do_channel_event fuel grants same_thread e
        (record l {
          channels = assign l.channels a (record c { events = bit_and c.events 4294967291 });
        })
        a 3

-- `struct thread_pool`, whose threads have their event loops
pub record ThreadPool : Type 0 where
  pub main_loop : Addr
  pub started : Bool
  pub thread_number : ℕ
  pub event_loops : List Addr
  pub position : ℕ

-- `thread_pool_get_loop`, called in the main thread
unfoldable pub thread_pool_get_loop : ThreadPool → Option (Addr × ThreadPool)
thread_pool_get_loop t =
    if not t.started
    then none
    else if leb t.thread_number 0 || is_negative t.thread_number
    then some (t.main_loop, t)
    else some (
      get_or t.event_loops t.position null,
      record t { position = if leb t.thread_number (t.position + 1) then 0 else t.position + 1 },
    )
