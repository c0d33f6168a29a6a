-- ===== src/Connection/Handed.antt =====
-- A buffer that is handed to a connection is sent whole.
use cpp_example_code.Base.{
  ℕ, ◌+◌, ◌-◌, ◌^◌, ◌≤◌, ◌<◌, ◌≡◌, refl, ◌∙◌, ◌⊎◌, Option, some, [], ◌++◌, arith,
}
use cpp_example_code.Base.Lists.{length, drop, length-drop}
use cpp_example_code.Base.Int.{pos}
use cpp_example_code.Buffer.Ops.{Buffer, readable_size}
use cpp_example_code.Buffer.Room.{IsBuffer, content}
use cpp_example_code.Connection.Ops.{Connection, System, byte_before, send_buffer}
use cpp_example_code.Connection.Open.{
  stream, IsOpen, rest_of, IsWired, content_behind, length-content,
}
use cpp_example_code.Connection.Sent.{IsAble, at_once, send_data-Sent, nil_of}

module _ {S R : Type 0} where
  -- What `tcp_connection_send_buffer` promises.
  pub record Handed (c : Connection S R) (b : Buffer) (n : ℕ)
      (out : Option (ℕ × Buffer × Connection S R)) : Type 0 where
    pub after : Connection S R
    pub emptied : Buffer
    pub returns : out ≡ some (n, emptied, after)
    pub streams : stream after ≡ stream c ++ content b
    pub opened : IsOpen after
    pub same : rest_of after ≡ rest_of c
    pub nothing_left : content emptied ≡ []

  -- `tcp_connection_send_buffer` gives all readable bytes of a buffer to the connection, in order, and
  -- leaves none to be read, under the conditions of `tcp_connection_send_data`.
  pub send_buffer-Handed :
      (sys : System S) (b : Buffer) (c : Connection S R) (k : ℕ)
      → IsAble sys
      → IsBuffer b
      → IsOpen c
      → k ≤ length (content b)
      → (k ≡ length (content b)) ⊎ IsWired c
      → c.output_buffer.total_size + length (content b) < 2 ^ 31
      → Handed c b (at_once c k) (send_buffer sys (pos k) b c)
  unfolding send_buffer readable_size
  send_buffer-Handed sys b c k able v o le finishes small =
      let s = send_data-Sent sys able (byte_before b) (content b) c k o le finishes small in
      let n = b.write_index - b.read_index in
      record {
        after = s.after;
        emptied = record b { read_index = b.read_index + n };
        returns = rw (s.returns, send_buffer) refl;
        streams = s.streams;
        opened = s.opened;
        same = s.same;
        nothing_left =
            content_behind b n v (omega arith)
            ∙ nil_of (drop n (content b))
                (omega (arith, length-drop n (content b), length-content b));
      }
