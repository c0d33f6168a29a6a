-- ===== src/Connection/Failing.antt =====
-- What `tcp_connection_send_data` does where write fails or falls short, and what a new connection is.
use cpp_example_code.Base.{
  ℕ, ◌+◌, ◌-◌, ◌%◌, ◌^◌, ◌<◌, ◌≡◌, refl, ap, ◌∙◌, true, false, Option, none, some, List, [], ◌∷◌,
  ◌++◌, arith,
}
use mathlib.Core.List.{append-nil}
use cpp_example_code.Base.Tests.{ltb, leb, ◌==◌}
use cpp_example_code.Base.Lists.{length, take, drop, length-drop}
use cpp_example_code.Base.Int.{pos, negsuc}
use cpp_example_code.Buffer.Ops.{readable_size}
use cpp_example_code.Buffer.Room.{IsBuffer, content}
use cpp_example_code.Buffer.Append.{append-Appended}
use cpp_example_code.Connection.Ops.{
  Connection, System, is_waiting, left_from, write_enable, keep_rest, send_rest, send_data,
}
use cpp_example_code.Connection.Open.{IsOpen, IsWired}
use cpp_example_code.Connection.Sent.{IsAble, Sent, keep_first, rest_kept}

failed_over : (n : ℕ) → n < 2 ^ 31 → (n + 2 ^ 64 - (2 ^ 64 - 1)) % 2 ^ 64 ≡ n + 1
failed_over n small = omega arith

module _ {S R : Type 0} (sys : System S) (able : IsAble sys) where
  -- the rest of an unwired connection's bytes
  keep_unwired :
      (rest : List ℕ) (c : Connection S R)
      → IsBuffer c.output_buffer
      → is_waiting c ≡ false
      → ((c.loop.channels c.channel).callback_data == c.event_loop) ≡ false
      → c.output_buffer.total_size + length rest < 2 ^ 31
      → keep_rest sys rest c ≡ none
  unfolding keep_rest write_enable
  keep_unwired rest c valid idle unwired small =
      let a =
        append-Appended c.output_buffer rest (sys.realloc (length rest)) valid
          (able.realloc (length rest)) small in
      rw (a.returns, idle, unwired, keep_rest, write_enable) refl

  -- Where the channel's data is not the event loop, a write that takes less than all of the bytes leads to a
  -- run that C does not define: `channel_write_event_enable` takes the data for the event loop.
  pub send_data_unwired :
      (before : Option ℕ) (bytes : List ℕ) (c : Connection S R) (k : ℕ)
      → IsOpen c
      → is_waiting c ≡ false
      → ((c.loop.channels c.channel).callback_data == c.event_loop) ≡ false
      → k < length bytes
      → c.output_buffer.total_size + length bytes < 2 ^ 31
      → send_data sys (pos k) before bytes c ≡ none
  unfolding send_data
  send_data_unwired before bytes c k o idle unwired short small =
      let nothing : readable_size c.output_buffer ≡ 0 = (let w = o.waits in ground arith) in
      let c' = record c { sent = c.sent ++ take k bytes } in
      let stuck =
        keep_unwired (drop k bytes) c' o.output idle unwired (omega (arith, length-drop k bytes)) in
      rw (idle, nothing, rest_kept sys able before bytes c' k (omega arith) short, stuck, send_data)
        refl

  failed_rest :
      (x : ℕ) (bytes : List ℕ) (c : Connection S R)
      → length bytes + 1 < 2 ^ 31
      → (send_rest sys none bytes 18446744073709551615 c ≡ none)
        × (send_rest sys (some x) bytes 18446744073709551615 c
            ≡ (elim (keep_rest sys (x ∷ bytes) c) [
              | none ↦ none
              | some c' ↦ some (18446744073709551615, c')
            ]))
  unfolding send_rest left_from
  failed_rest x bytes c small =
      let left = failed_over (length bytes) (omega arith) in
      let more : ltb 0 (length bytes + 1) ≡ true = ground arith in
      let outside : leb 18446744073709551615 (length bytes) ≡ false = ground arith in
      (
        rw (left, more, outside, send_rest, left_from) refl,
        rw (left, more, outside, send_rest, left_from) refl,
      )

  failed_step :
      (before : Option ℕ) (bytes : List ℕ) (c : Connection S R)
      → is_waiting c ≡ false
      → readable_size c.output_buffer ≡ 0
      → send_data sys (negsuc 0) before bytes c
        ≡ send_rest sys before bytes 18446744073709551615 (record c { sent = c.sent ++ [] })
  unfolding send_data
  failed_step before bytes c idle nothing = rw (idle, nothing, send_data) refl

  -- A write that fails is not noticed: the code goes on as if it had taken -1 bytes, and puts the byte in front
  -- of the data, and then the data, into the output buffer. Without such a byte it reads outside the
  -- object.
  pub send_data_failed :
      (x : ℕ) (bytes : List ℕ) (c : Connection S R)
      → IsOpen c
      → is_waiting c ≡ false
      → IsWired c
      → c.output_buffer.total_size + (length bytes + 1) < 2 ^ 31
      → (send_data sys (negsuc 0) none bytes c ≡ none)
        × Sent c (x ∷ bytes) (2 ^ 64 - 1) (send_data sys (negsuc 0) (some x) bytes c)
  send_data_failed x bytes c o idle wired small =
      let nothing : readable_size c.output_buffer ≡ 0 = (let w = o.waits in ground arith) in
      let c' = record c { sent = c.sent ++ [] } in
      let d =
        keep_first sys able (x ∷ bytes) c' o.output o.ready idle nothing wired (omega arith)
          (omega arith) in
      let (outside, kept) = failed_rest x bytes c' (omega arith) in
      (
        failed_step none bytes c idle nothing ∙ outside,
        record {
          after = d.after;
          returns =
              failed_step (some x) bytes c idle nothing
              ∙ kept
              ∙ ap (λ t. elim t [ none ↦ none | some c'' ↦ some (18446744073709551615, c'') ])
                  d.returns;
          streams =
              d.streams
              ∙ ap (λ t. (t ++ content c.output_buffer) ++ (x ∷ bytes)) (append-nil c.sent);
          opened = d.opened;
          same = d.same;
        },
      )
