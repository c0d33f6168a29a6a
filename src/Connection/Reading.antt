-- ===== src/Connection/Reading.antt =====
-- Reading: what arrives goes behind the unread bytes and to the application, and the end of the input closes
-- the connection.
use cpp_example_code.Base.{
  ℕ, ◌+◌, ◌-◌, ◌^◌, ◌<◌, ◌≡◌, refl, ◌∙◌, false, Option, none, some, List, [], ◌∷◌, ◌++◌, arith,
}
use mathlib.Core.Path.{subst}
use mathlib.Core.List.{append-nil}
use cpp_example_code.Base.Tests.{◌==◌}
use cpp_example_code.Base.Lists.{length}
use cpp_example_code.Buffer.Ops.{Buffer, socket_read}
use cpp_example_code.Buffer.Room.{IsBuffer, content}
use cpp_example_code.Buffer.Socket.{socket_read-Received}
use cpp_example_code.EventLoop.State.{EventLoop}
use cpp_example_code.EventLoop.Map.{IsMap}
use cpp_example_code.EventLoop.Interest.{IsReady}
use cpp_example_code.EventLoop.Unwatch.{Unwatched, do_channel_event-Unwatched}
use cpp_example_code.Connection.Ops.{
  Connection, ConnectionCallback, System, call, handle_connection_closed, handle_read,
}
use cpp_example_code.Connection.Sent.{IsAble}

module _ {S R : Type 0} where
  -- The application's callback gets the connection with the bytes behind the unread ones.
  pub record Arrived (c : Connection S R) (src : List ℕ) (message : ConnectionCallback S R)
      (out : Option (Connection S R)) : Type 0 where
    pub input : Buffer
    pub returns : out ≡ call message (record c { input_buffer = input })
    pub valid : IsBuffer input
    pub extends : content input ≡ content c.input_buffer ++ src

  -- The closing callback gets the connection with its channel out of the loop.
  pub record Closed (sys : System S) (c : Connection S R) (closed : ConnectionCallback S R)
      (out : Option (Connection S R)) : Type 0 where
    pub input : Buffer
    pub same_content : content input ≡ content c.input_buffer
    pub loop : EventLoop S
    pub unwatched : Unwatched sys.dispatcher c.loop c.channel (some loop)
    pub returns : out ≡ call closed (record c { input_buffer = input; loop = loop })

  module _ (sys : System S) (message closed : ConnectionCallback S R) (c : Connection S R) where
    -- `handle_read` of bytes that have arrived puts them behind the unread ones and calls the application once,
    -- if memory is there for a growth and the buffer's size stays an int.
    pub handle_read-Arrived :
        (x : ℕ) (src more : List ℕ)
        → IsBuffer c.input_buffer
        → length more ≡ length (x ∷ src) - (c.input_buffer.total_size - c.input_buffer.write_index)
        → c.input_buffer.total_size + length (x ∷ src) < 2 ^ 31
        → Arrived c (x ∷ src) message (handle_read sys (some (x ∷ src)) more message closed c)
    unfolding handle_read
    handle_read-Arrived x src more v fresh small =
        let r = socket_read-Received c.input_buffer (x ∷ src) more v fresh small in
        let some_there : (length (x ∷ src) == 0) ≡ false = ground arith in
        record {
          input = r.after;
          returns = rw (r.returns, some_there, handle_read) refl;
          valid = r.valid;
          extends = r.extends;
        }

    closing :
        (b : Buffer)
        → content b ≡ content c.input_buffer
        → IsMap c.loop.channel_map
        → IsReady c.loop c.channel
        → IsAble sys
        → Closed sys c closed (handle_connection_closed sys closed (record c { input_buffer = b }))
    unfolding handle_connection_closed
    closing b same formed ready able =
        let u =
          do_channel_event-Unwatched sys.dispatcher sys.fuel sys.grants sys.element c.loop c.channel
            formed ready able.element able.fuel in
        record {
          input = b;
          same_content = same;
          loop = u.after;
          unwatched = subst (Unwatched sys.dispatcher c.loop c.channel) u.returns u;
          returns = rw (u.returns, handle_connection_closed) refl;
        }

    -- `handle_read` at the end of the input, or where readv fails, takes the channel out of the loop and calls
    -- the closing callback once, and not the application's.
    pub handle_read-Closed :
        (more : List ℕ)
        → IsBuffer c.input_buffer
        → IsMap c.loop.channel_map
        → IsReady c.loop c.channel
        → IsAble sys
        → c.input_buffer.total_size < 2 ^ 31
        → Closed sys c closed (handle_read sys none more message closed c)
          × Closed sys c closed (handle_read sys (some []) [] message closed c)
    unfolding handle_read socket_read handle_connection_closed
    handle_read-Closed more v formed ready able small =
        let r = socket_read-Received c.input_buffer [] [] v (omega arith) (omega arith) in
        (
          closing c.input_buffer refl formed ready able,
          rw (r.returns, handle_read)
              (closing r.after (r.extends ∙ append-nil (content c.input_buffer)) formed ready able),
        )
