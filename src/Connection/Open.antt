-- ===== src/Connection/Open.antt =====
-- Connections whose output is in order, and one that a call leaves so.
use cpp_example_code.Base.{ℕ, ◌+◌, ◌-◌, ◌≤◌, ◌≡◌, ap, Bool, true, not, List, ◌++◌, arith}
use cpp_example_code.Base.Tests.{◌==◌}
use cpp_example_code.Base.Lists.{length, drop, length-append}
use cpp_example_code.Buffer.Ops.{Buffer, readable_size}
use cpp_example_code.Buffer.Bytes.{drop-cells, length-cells}
use cpp_example_code.Buffer.Room.{IsBuffer, content}
use cpp_example_code.EventLoop.State.{Addr}
use cpp_example_code.EventLoop.Interest.{IsReady}
use cpp_example_code.Connection.Ops.{Connection, is_waiting}

module _ {S R : Type 0} where
  -- The bytes given to the connection: what the kernel has taken and what waits.
  abbrev pub stream : Connection S R → List ℕ
  stream c = c.sent ++ content c.output_buffer

  -- The output buffer is in order, the loop is ready for the channel, and the channel waits to write
  -- exactly while there are bytes to send.
  pub record IsOpen (c : Connection S R) : Type 0 where
    pub output : IsBuffer c.output_buffer
    pub ready : IsReady c.loop c.channel
    pub waits : is_waiting c ≡ not (readable_size c.output_buffer == 0)

  -- what sending leaves alone
  abbrev pub rest_of : Connection S R → Addr × Addr × Addr × Buffer × R × Bool × Addr
  rest_of c = (
    c.self,
    c.event_loop,
    c.channel,
    c.input_buffer,
    c.request,
    c.is_shut,
    (c.loop.channels c.channel).callback_data,
  )

  -- The channel's data is the connection's event loop.
  abbrev pub IsWired : Connection S R → Type 0
  IsWired c = ((c.loop.channels c.channel).callback_data == c.event_loop) ≡ true

-- The readable bytes after `n` of them have been read.
pub content_behind :
    (b : Buffer) (n : ℕ)
    → IsBuffer b
    → n ≤ b.write_index - b.read_index
    → content (record b { read_index = b.read_index + n }) ≡ drop n (content b)
content_behind b n v le =
    let fewer : b.write_index - (b.read_index + n) ≡ b.write_index - b.read_index - n =
      omega arith in
    rw fewer (drop-cells n (b.write_index - b.read_index) b.read_index b.bytes le)

pub behind-IsBuffer :
    (b : Buffer) (n : ℕ)
    → IsBuffer b
    → n ≤ b.write_index - b.read_index
    → IsBuffer (record b { read_index = b.read_index + n })
behind-IsBuffer b n v le = record {
  ordered = omega (arith, v.ordered);
  bounded = v.bounded;
  sized = v.sized;
}

pub length-content : (b : Buffer) → length (content b) ≡ b.write_index - b.read_index
length-content b = length-cells (b.write_index - b.read_index) b.read_index b.bytes

-- A buffer with more content has as many more bytes to read.
pub readable_size-extended :
    (b b' : Buffer) (src : List ℕ)
    → content b' ≡ content b ++ src
    → readable_size b' ≡ readable_size b + length src
unfolding readable_size
readable_size-extended b b' src e =
    omega (arith, length-content b, length-content b', ap length e, length-append (content b) src)
