-- ===== src/Connection/Created.antt =====
-- What `tcp_connection_new` makes.
use cpp_example_code.Base.{
  ℕ, ◌+◌, ◌<◌, ◌≡◌, refl, ap, ◌∙◌, Bool, true, false, Option, none, some, List, [], ◌∷◌, ◌++◌,
  arith,
}
use cpp_example_code.Base.Lists.{length}
use cpp_example_code.Base.Loops.{assign, assign_self}
use cpp_example_code.Base.Occurs.{occurs}
use cpp_example_code.Buffer.Ops.{Buffer, new, cells, init_buffer_size}
use cpp_example_code.Buffer.Room.{IsBuffer, content}
use cpp_example_code.EventLoop.State.{Addr, event_read, Dispatcher, EventLoop}
use cpp_example_code.EventLoop.Ops.{
  channel_new, channel_buffer_nolock, wakeup, do_channel_event, channel_write_event_is_enabled,
}
use cpp_example_code.EventLoop.Pending.{IsQueue, change_of, channel_buffer_nolock-Posted}
use cpp_example_code.Connection.Ops.{Connection, System, is_waiting, call, connect}

posted_elsewhere :
    {S : Type 0} (d : Dispatcher S) (fuel : ℕ) (grants : Addr → Bool) (l : EventLoop S) (e a : Addr)
    → l.is_handle_pending ≡ false
    → do_channel_event d fuel grants false e l a 1 ≡ some (wakeup (channel_buffer_nolock e l a 1))
unfolding do_channel_event
posted_elsewhere d fuel grants l e a idle = rw (idle, do_channel_event) refl

-- a new buffer over the memory given
abbrev buffer_over : List ℕ → Buffer
buffer_over memory = record {
  bytes = memory;
  read_index = 0;
  write_index = 0;
  total_size = init_buffer_size;
}

module _ {S R : Type 0} where
  -- A new connection, made in another thread than the loop's: its buffers are empty, its channel wants to
  -- read only, has both callbacks and the connection itself for its data, the addition of the channel
  -- is the last change in the loop's queue, and the loop has been woken up.
  pub record Connected (l : EventLoop S) (queued : List Addr) (e fd : ℕ) (at self a : Addr) (r : R)
      (out : Option (Connection S R)) : Type 0 where
    pub after : Connection S R
    pub returns : out ≡ some after
    pub input : IsBuffer after.input_buffer
    pub output : IsBuffer after.output_buffer
    pub nothing_read : content after.input_buffer ≡ []
    pub nothing_written : content after.output_buffer ≡ []
    pub nothing_sent : after.sent ≡ []
    pub quiet : is_waiting after ≡ false
    pub channel : after.loop.channels after.channel ≡ channel_new fd event_read true true self
    pub request : after.request ≡ r
    pub loop : after.event_loop ≡ at
    pub queue : IsQueue after.loop (queued ++ (e ∷ []))
    pub newest : change_of after.loop.elements e ≡ (1, a)
    pub woken : after.loop.wakeups ≡ l.wakeups + 1

  module _ (sys : System S) where
    -- `tcp_connection_new` in another thread than the loop's, with a callback that sets the connection's request
    -- as the HTTP server's does: it ends and makes such a connection, whatever else is queued.
    pub connect-Connected :
        (fd : ℕ) (at : Addr) (l : EventLoop S) (self a : Addr) (read_memory written_memory : List ℕ)
        (blank r : R) (queued : List Addr)
        → l.is_handle_pending ≡ false
        → IsQueue l queued
        → 0 < sys.element
        → occurs sys.element queued ≡ 0
        → length read_memory ≡ init_buffer_size
        → length written_memory ≡ init_buffer_size
        → Connected l queued sys.element fd at self a r (
            connect sys false fd at l self a read_memory written_memory blank
              (some (λ c. some (record c { request = r }))))
    unfolding connect call new wakeup cells channel_new channel_write_event_is_enabled
    connect-Connected fd at l self a read_memory written_memory blank r queued idle queue proper
          fresh in_size out_size =
        let l' = record l {
          channels = assign l.channels a (channel_new fd event_read true true self);
        } in
        let queue' : IsQueue l' queued = record {
          chained = queue.chained;
          once = queue.once;
          tail = queue.tail;
        } in
        let p = channel_buffer_nolock-Posted l' queued sys.element a 1 queue' proper fresh in
        let here : (channel_buffer_nolock sys.element l' a 1).channels a
            ≡ channel_new fd event_read true true self =
          ap (λ t. t.2 a) p.same ∙ assign_self l.channels a _ in
        let made : Connection S R = record {
          self = self;
          event_loop = at;
          loop = l';
          channel = a;
          input_buffer = buffer_over read_memory;
          output_buffer = buffer_over written_memory;
          request = r;
          sent = [];
          is_shut = false;
        } in
        record {
          after = record made { loop = wakeup (channel_buffer_nolock sys.element l' a 1) };
          returns =
              ap (λ t. elim t [ none ↦ none | some l'' ↦ some (record made { loop = l'' }) ])
                (posted_elsewhere sys.dispatcher sys.fuel sys.grants l' sys.element a idle);
          input = record { ordered = omega arith; bounded = omega arith; sized = in_size };
          output = record { ordered = omega arith; bounded = omega arith; sized = out_size };
          nothing_read = refl;
          nothing_written = refl;
          nothing_sent = refl;
          quiet = ap channel_write_event_is_enabled here ∙ refl;
          channel = here;
          request = refl;
          loop = refl;
          queue = record { chained = p.queue.chained; once = p.queue.once; tail = p.queue.tail };
          newest = p.newest;
          woken = ap (λ t. t.4 + 1) p.same;
        }
