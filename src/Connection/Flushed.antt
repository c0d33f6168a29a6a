-- ===== src/Connection/Flushed.antt =====
-- The output buffer is written out: in order, and to its end.
use cpp_example_code.Base.{
  ℕ, ◌+◌, ◌-◌, ◌≤◌, ◌<◌, ◌≡◌, refl, sym, ap, ◌∙◌, ◌⊎◌, inl, inr, false, not, Option, none, some,
  List, [], ◌∷◌, ◌++◌, arith,
}
use mathlib.Core.List.{append_assoc, append-nil}
use cpp_example_code.Base.Tests.{◌==◌, Bool-cases}
use cpp_example_code.Base.Lists.{length, take, drop, All, take-append-drop, length-drop}
use cpp_example_code.Base.Int.{pos}
use cpp_example_code.Buffer.Ops.{readable_size}
use cpp_example_code.Buffer.Room.{content}
use cpp_example_code.EventLoop.Interest.{disable-Switched, channel_write_event_is_enabled-off}
use cpp_example_code.EventLoop.Ops.{channel_write_event_is_enabled}
use cpp_example_code.Connection.Ops.{
  Connection, ConnectionCallback, System, is_waiting, call, write_disable, handle_write,
}
use cpp_example_code.Connection.Open.{
  stream, IsOpen, rest_of, IsWired, content_behind, behind-IsBuffer, length-content,
}
use cpp_example_code.Connection.Sent.{IsAble, nil_of}

module _ {S R : Type 0} where
  -- What a round of writing does: the callback gets a connection from whose buffer the bytes have gone to
  -- the kernel, which is open still and otherwise as it was.
  pub record Flushed (c : Connection S R) (k : ℕ) (completed : ConnectionCallback S R)
      (out : Option (Connection S R)) : Type 0 where
    pub after : Connection S R
    pub returns : out ≡ call completed after
    pub sends : after.sent ≡ c.sent ++ take k (content c.output_buffer)
    pub leaves : content after.output_buffer ≡ drop k (content c.output_buffer)
    pub opened : IsOpen after
    pub same : rest_of after ≡ rest_of c

  -- the connection after `write` has taken `k` bytes of the buffer
  abbrev written_out : Connection S R → ℕ → Connection S R
  written_out c k = record c {
    output_buffer = record c.output_buffer { read_index = c.output_buffer.read_index + k };
    sent = c.sent ++ take k (content c.output_buffer);
  }

  module _ (sys : System S) (able : IsAble sys) (completed : ConnectionCallback S R) where
    -- `handle_write` on an open connection, where write takes some of the bytes that wait: they go to the
    -- kernel in order, the rest waits, and the interest in writing ends exactly with the last byte. Where
    -- that comes, the channel's data is to be the event loop.
    pub handle_write-Flushed :
        (c : Connection S R) (k : ℕ)
        → IsOpen c
        → 0 < k
        → k ≤ readable_size c.output_buffer
        → (k < readable_size c.output_buffer) ⊎ IsWired c
        → Flushed c k completed (handle_write sys (pos k) completed c)
    unfolding handle_write write_disable readable_size
    handle_write-Flushed c k o proper le ends =
        let b = c.output_buffer in
        let some_taken : (k == 0) ≡ false = ground arith in
        let v = behind-IsBuffer b k o.output le in
        let leaves = content_behind b k o.output le in
        elim (Bool-cases (b.write_index - (b.read_index + k) == 0)) [
          | inl last ↦
              let wired : IsWired c = elim ends [
                | inl more ↦ absurd (ground arith)
                | inr wired ↦ wired
              ] in
              let s =
                disable-Switched sys.dispatcher sys.fuel sys.grants sys.element c.loop c.channel
                  o.ready able.element able.fuel in
              record {
                after = record (written_out c k) { loop = s.after };
                returns = rw (some_taken, last, wired, s.returns, handle_write, write_disable) refl;
                sends = refl;
                leaves = leaves;
                opened = record {
                  output = v;
                  ready = s.ready;
                  waits =
                      ap channel_write_event_is_enabled s.channel
                      ∙ channel_write_event_is_enabled-off (c.loop.channels c.channel)
                      ∙ sym (ap not last);
                };
                same =
                    ap
                      (λ t. (
                        c.self, c.event_loop, c.channel, c.input_buffer, c.request, c.is_shut,
                        t.callback_data,
                      ))
                      s.channel;
              }
          | inr more ↦ record {
            after = written_out c k;
            returns = rw (some_taken, more, handle_write) refl;
            sends = refl;
            leaves = leaves;
            opened = record {
              output = v;
              ready = o.ready;
              waits = (let w = o.waits in ground arith);
            };
            same = refl;
          }
        ]

  -- No byte is lost, doubled or moved.
  flushed_stream :
      (c : Connection S R) (k : ℕ) (f : Connection S R)
      → f.sent ≡ c.sent ++ take k (content c.output_buffer)
      → content f.output_buffer ≡ drop k (content c.output_buffer)
      → stream f ≡ stream c
  flushed_stream c k f sends leaves =
      ap (λ t. t ++ content f.output_buffer) sends
      ∙ ap (λ t. (c.sent ++ take k (content c.output_buffer)) ++ t) leaves
      ∙ append_assoc c.sent (take k (content c.output_buffer)) (drop k (content c.output_buffer))
      ∙ ap (λ t. c.sent ++ t) (take-append-drop k (content c.output_buffer))

  -- Everything has been sent.
  pub record Drained (c : Connection S R) (out : Option (Connection S R)) : Type 0 where
    pub after : Connection S R
    pub returns : out ≡ some after
    pub sends : after.sent ≡ stream c
    pub empty : content after.output_buffer ≡ []
    pub quiet : is_waiting after ≡ false

-- rounds of `handle_write`, with the numbers of bytes that write takes
unfoldable pub rounds :
    {S R : Type 0} → System S → List ℕ → Connection S R → Option (Connection S R)
rounds sys [] c = some c
rounds sys (k ∷ ks) c = elim (handle_write sys (pos k) none c) [
  | none ↦ none
  | some c' ↦ rounds sys ks c'
]

-- the bytes of a list of rounds
abbrev pub total : List ℕ → ℕ
total [] = 0
total (k ∷ ks) = k + total ks

module _ {S R : Type 0} (sys : System S) (able : IsAble sys) where
  IsWired-still : (c c' : Connection S R) → rest_of c' ≡ rest_of c → IsWired c → IsWired c'
  IsWired-still c c' same wired = ap (λ t. t.6 == t.1) same ∙ wired

  -- Rounds of `handle_write` in each of which write takes some bytes, and together as many as wait, send all
  -- that was given to the connection, in order, and end the interest in writing.
  pub rounds-Drained :
      (ks : List ℕ) (c : Connection S R)
      → IsOpen c
      → IsWired c
      → All (λ k. 0 < k) ks
      → total ks ≡ readable_size c.output_buffer
      → Drained c (rounds sys ks c)
  unfolding readable_size call rounds
  rounds-Drained [] c o wired some_each all =
      let nothing =
        nil_of (content c.output_buffer) (omega (arith, length-content c.output_buffer)) in
      record {
        after = c;
        returns = refl;
        sends = sym (ap (λ t. c.sent ++ t) nothing ∙ append-nil c.sent);
        empty = nothing;
        quiet = (let w = o.waits in ground arith);
      }
  rounds-Drained (k ∷ ks) c o wired (proper, others) all =
      let f = handle_write-Flushed sys able none c k o proper (omega arith) (inr wired) in
      let fewer : readable_size f.after.output_buffer ≡ total ks = omega (
        arith,
        length-content f.after.output_buffer,
        ap length f.leaves,
        length-drop k (content c.output_buffer),
        length-content c.output_buffer,
      ) in
      let next =
        rounds-Drained ks f.after f.opened (IsWired-still c f.after f.same wired) others
          (sym fewer) in
      record {
        after = next.after;
        returns = rw (f.returns, rounds) next.returns;
        sends = next.sends ∙ flushed_stream c k f.after f.sends f.leaves;
        empty = next.empty;
        quiet = next.quiet;
      }
