-- ===== src/Connection/Ops.antt =====
-- The functions of httptest-geektime/lib/tcp_connection.c, under the source's names less the prefix
-- tcp_connection_. `none` is a run that C does not define.
use cpp_example_code.Base.{
  ℕ, ◌+◌, ◌-◌, ◌%◌, ◌^◌, Bool, true, false, ◌&&◌, not, Option, none, some, List, [], ◌∷◌, ◌++◌,
}
use cpp_example_code.Base.Tests.{ltb, leb, ◌==◌, if◌then◌else◌}
use cpp_example_code.Base.Lists.{length, get_or, take, drop}
use cpp_example_code.Base.Loops.{assign}
use cpp_example_code.Base.Int.{ℤ, pos, negsuc}
use cpp_example_code.Buffer.Ops.{Buffer, new, readable_size, append, cells, socket_read}
use cpp_example_code.EventLoop.State.{Addr, event_read, Dispatcher, EventLoop}
use cpp_example_code.EventLoop.Ops.{
  channel_new, do_channel_event, channel_write_event_is_enabled, channel_write_event_enable,
  channel_write_event_disable,
}

-- `struct tcp_connection`, less the name and the callbacks, and what it stands in: its own address,
-- the event loop that it points to, the bytes that the kernel has taken from it, in order, and whether it
-- has been shut down for writing. `data` and `request` are the callbacks' own.
pub record Connection (S R : Type 0) : Type 0 where
  pub self : Addr
  pub event_loop : Addr
  pub loop : EventLoop S
  pub channel : Addr
  pub input_buffer : Buffer
  pub output_buffer : Buffer
  pub request : R
  pub sent : List ℕ
  pub is_shut : Bool

-- a callback, NULL where it is `none`
abbrev pub ConnectionCallback : Type 0 → Type 0 → Type 0
ConnectionCallback S R = Option (Connection S R → Option (Connection S R))

-- an int or a ssize_t as a size_t
abbrev pub as_size : ℤ → ℕ
as_size (pos n) = n
as_size (negsuc n) = 2 ^ 64 - 1 - n

-- the bytes that `write` has taken from `bytes` where it answers `n`
abbrev pub taken : ℤ → List ℕ → List ℕ
taken (pos n) bytes = take n bytes
taken (negsuc n) bytes = []

-- The bytes from `data + nwrited` on, for as many as are left; `before` is the byte in front of data, if it is
-- in the same object.
unfoldable pub left_from : Option ℕ → List ℕ → ℕ → Option (List ℕ)
left_from before bytes nwrited =
    if leb nwrited (length bytes)
    then some (drop nwrited bytes)
    else if nwrited == 2 ^ 64 - 1
    then (elim before [ none ↦ none | some x ↦ some (x ∷ bytes) ])
    else none

-- the bytes of a buffer that can be read
abbrev pub readable : Buffer → List ℕ
readable b = cells (readable_size b) b.read_index b.bytes

-- the byte in front of them, if there is one in the memory
abbrev pub byte_before : Buffer → Option ℕ
byte_before b = if b.read_index == 0 then none else some (get_or b.bytes (b.read_index - 1) 0)

module _ {S R : Type 0} where
  -- `channel_write_event_is_enabled(channel)`
  abbrev pub is_waiting : Connection S R → Bool
  is_waiting c = channel_write_event_is_enabled (c.loop.channels c.channel)

  unfoldable pub call : ConnectionCallback S R → Connection S R → Option (Connection S R)
  call none c = some c
  call (some f) c = f c

-- The dispatcher, the queue's fuel, what realloc answers in the event loop and to the buffer, and what malloc
-- gives for a change.
pub record System (S : Type 0) : Type 0 where
  pub dispatcher : Dispatcher S
  pub fuel : ℕ
  pub grants : Addr → Bool
  pub realloc : ℕ → List ℕ
  pub element : Addr

module _ {S R : Type 0} (sys : System S) where
  -- `channel_write_event_enable`, which takes the channel's data for the event loop; C does not define the run where
  -- it is something else, which the test stands for
  unfoldable pub write_enable : Connection S R → Option (Connection S R)
  write_enable c =
      if (c.loop.channels c.channel).callback_data == c.event_loop
      then (elim (channel_write_event_enable sys.dispatcher sys.fuel sys.grants true sys.element
          c.loop c.channel) [ none ↦ none | some l ↦ some (record c { loop = l }) ])
      else none

  unfoldable pub write_disable : Connection S R → Option (Connection S R)
  write_disable c =
      if (c.loop.channels c.channel).callback_data == c.event_loop
      then (elim (channel_write_event_disable sys.dispatcher sys.fuel sys.grants true sys.element
          c.loop c.channel) [ none ↦ none | some l ↦ some (record c { loop = l }) ])
      else none

  -- the end of `send_data`, with the bytes that are left
  unfoldable pub keep_rest : List ℕ → Connection S R → Option (Connection S R)
  keep_rest rest c = elim (append (some (sys.realloc (length rest))) c.output_buffer rest) [
    | none ↦ none
    | some b ↦
        if is_waiting c
        then some (record c { output_buffer = b })
        else write_enable (record c { output_buffer = b })
  ]

  -- what `send_data` does after its try: the size_t `nleft`, the copy and the interest in writing
  unfoldable pub send_rest : Option ℕ → List ℕ → ℕ → Connection S R → Option (ℕ × Connection S R)
  send_rest before bytes nwrited c =
      let nleft = (length bytes + 2 ^ 64 - nwrited) % 2 ^ 64 in
      if ltb 0 nleft
      then (elim (left_from before bytes nwrited) [
        | none ↦ none
        | some rest ↦ elim (keep_rest rest c) [ none ↦ none | some c' ↦ some (nwrited, c') ]
      ])
      else some (nwrited, c)

  -- `tcp_connection_send_data` of `bytes`, in the loop's thread; `answer` is what write returns if it is
  -- called. It is kept in a size_t, so that the test for a failure never holds.
  unfoldable pub send_data : ℤ → Option ℕ → List ℕ → Connection S R → Option (ℕ × Connection S R)
  send_data answer before bytes c =
      if not (is_waiting c) && readable_size c.output_buffer == 0
      then send_rest before bytes (as_size answer)
          (record c { sent = c.sent ++ taken answer bytes })
      else send_rest before bytes 0 c

  -- `tcp_connection_send_buffer`
  unfoldable pub send_buffer : ℤ → Buffer → Connection S R → Option (ℕ × Buffer × Connection S R)
  send_buffer answer b c = elim (send_data answer (byte_before b) (readable b) c) [
    | none ↦ none
    | some (n, c') ↦ some (n, record b { read_index = b.read_index + readable_size b }, c')
  ]

  -- `tcp_connection_shutdown`; a failure is only printed
  unfoldable pub shutdown : Connection S R → Connection S R
  shutdown c = record c { is_shut = true }

  -- `handle_connection_closed`
  unfoldable pub handle_connection_closed :
      ConnectionCallback S R → Connection S R → Option (Connection S R)
  handle_connection_closed closed c =
      elim (do_channel_event sys.dispatcher sys.fuel sys.grants true sys.element c.loop c.channel
        2) [ none ↦ none | some l ↦ call closed (record c { loop = l }) ]

  -- `handle_read`; `received` is what `readv` stored, `none` for its failure.
  unfoldable pub handle_read :
      Option (List ℕ)
      → List ℕ
      → ConnectionCallback S R
      → ConnectionCallback S R
      → Connection S R
      → Option (Connection S R)
  handle_read received memory message closed c =
      elim (socket_read (some memory) c.input_buffer received) [
        | none ↦ none
        | some (negsuc n, b) ↦ handle_connection_closed closed (record c { input_buffer = b })
        | some (pos n, b) ↦
            if n == 0
            then handle_connection_closed closed (record c { input_buffer = b })
            else call message (record c { input_buffer = b })
      ]

  -- `handle_write`; `answer` is what write returns.
  unfoldable pub handle_write :
      ℤ → ConnectionCallback S R → Connection S R → Option (Connection S R)
  handle_write (negsuc n) completed c = some c
  handle_write (pos n) completed c =
      let b = record c.output_buffer { read_index = c.output_buffer.read_index + n } in
      let c' = record c { output_buffer = b; sent = c.sent ++ take n (readable c.output_buffer) } in
      if n == 0
      then some c
      else if readable_size b == 0
      then (elim (write_disable c') [ none ↦ none | some c'' ↦ call completed c'' ])
      else call completed c'

  -- `tcp_connection_new`, where there is memory: the struct at `self`, its channel at `a` and the two buffers'
  -- bytes; `same_thread` is whether it runs in the loop's thread.
  unfoldable pub connect :
      Bool
      → ℕ
      → Addr
      → EventLoop S
      → Addr
      → Addr
      → List ℕ
      → List ℕ
      → R
      → ConnectionCallback S R
      → Option (Connection S R)
  connect same_thread fd at l self a read_memory written_memory request completed =
      elim (new true read_memory) [
        | none ↦ none
        | some input ↦ elim (new true written_memory) [
          | none ↦ none
          | some output ↦
              elim (call completed (record {
                self = self;
                event_loop = at;
                loop = record l {
                  channels = assign l.channels a (channel_new fd event_read true true self);
                };
                channel = a;
                input_buffer = input;
                output_buffer = output;
                request = request;
                sent = [];
                is_shut = false;
              })) [
                | none ↦ none
                | some c ↦
                    elim (do_channel_event sys.dispatcher sys.fuel sys.grants same_thread
                      sys.element c.loop c.channel 1) [
                        | none ↦ none
                        | some l' ↦ some (record c { loop = l' })
                      ]
              ]
        ]
      ]
