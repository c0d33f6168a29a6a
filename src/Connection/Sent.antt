-- ===== src/Connection/Sent.antt =====
-- Sending: every byte goes to the kernel or waits behind the bytes before it.
use cpp_example_code.Base.{
  ℕ, ◌+◌, ◌-◌, ◌%◌, ◌^◌, ◌≤◌, ◌<◌, ◌≡◌, refl, sym, ap, ◌∙◌, ◌⊎◌, inl, inr, true, false, Option,
  none, some, List, [], ◌∷◌, ◌++◌, arith,
}
use mathlib.Core.Path.{subst}
use mathlib.Core.List.{append_assoc, append-nil}
use cpp_example_code.Base.Tests.{ltb, leb, if◌then◌else◌, Bool-cases, ltb→lt}
use cpp_example_code.Base.Lists.{length, take, drop, take-append-drop, length-drop}
use cpp_example_code.Base.Int.{pos}
use cpp_example_code.Buffer.Ops.{Buffer, readable_size, cells}
use cpp_example_code.Buffer.Room.{IsBuffer, content}
use cpp_example_code.Buffer.Append.{append-Appended}
use cpp_example_code.EventLoop.Interest.{
  IsReady, enable-Switched, channel_write_event_is_enabled-on,
}
use cpp_example_code.EventLoop.Ops.{channel_write_event_is_enabled}
use cpp_example_code.Connection.Ops.{
  Connection, System, is_waiting, left_from, write_enable, keep_rest, send_rest, send_data,
}
use cpp_example_code.Connection.Open.{stream, IsOpen, rest_of, IsWired, readable_size-extended}

-- The system can carry a change out at once: malloc gives an element, the queue's fuel is enough for it, and
-- realloc gives what it is asked for.
pub record IsAble {S : Type 0} (sys : System S) : Type 0 where
  pub element : 0 < sys.element
  pub fuel : 1 < sys.fuel
  pub realloc : (n : ℕ) → length (sys.realloc n) ≡ n

module _ {S R : Type 0} where
  -- What a sending promises: it ends, the bytes are behind those given before, and the connection is open
  -- still and otherwise as it was.
  pub record Delivered (c : Connection S R) (bytes : List ℕ) (out : Option (Connection S R))
      : Type 0 where
    pub after : Connection S R
    pub returns : out ≡ some after
    pub streams : stream after ≡ stream c ++ bytes
    pub opened : IsOpen after
    pub same : rest_of after ≡ rest_of c

  module _ (sys : System S) (able : IsAble sys) where
    -- The rest goes to a buffer that is not empty.
    keep_behind :
        (rest : List ℕ) (c : Connection S R)
        → IsOpen c
        → is_waiting c ≡ true
        → c.output_buffer.total_size + length rest < 2 ^ 31
        → Delivered c rest (keep_rest sys rest c)
    unfolding keep_rest
    keep_behind rest c o waiting small =
        let a =
          append-Appended c.output_buffer rest (sys.realloc (length rest)) o.output
            (able.realloc (length rest)) small in
        record {
          after = record c { output_buffer = a.after };
          returns = rw (a.returns, waiting, keep_rest) refl;
          streams =
              ap (λ t. c.sent ++ t) a.extends
              ∙ sym (append_assoc c.sent (content c.output_buffer) rest);
          opened = record {
            output = a.valid;
            ready = o.ready;
            waits =
                (let more = readable_size-extended c.output_buffer a.after rest a.extends in
                  let before = o.waits in ground arith);
          };
          same = refl;
        }

    -- The rest goes to an empty buffer, and the channel is to wait.
    pub keep_first :
        (rest : List ℕ) (c : Connection S R)
        → IsBuffer c.output_buffer
        → IsReady c.loop c.channel
        → is_waiting c ≡ false
        → readable_size c.output_buffer ≡ 0
        → IsWired c
        → 0 < length rest
        → c.output_buffer.total_size + length rest < 2 ^ 31
        → Delivered c rest (keep_rest sys rest c)
    unfolding keep_rest write_enable
    keep_first rest c valid ready waiting empty wired nonempty small =
        let a =
          append-Appended c.output_buffer rest (sys.realloc (length rest)) valid
            (able.realloc (length rest)) small in
        let s =
          enable-Switched sys.dispatcher sys.fuel sys.grants sys.element c.loop c.channel ready
            able.element able.fuel in
        record {
          after = record c { output_buffer = a.after; loop = s.after };
          returns = rw (a.returns, waiting, wired, s.returns, keep_rest, write_enable) refl;
          streams =
              ap (λ t. c.sent ++ t) a.extends
              ∙ sym (append_assoc c.sent (content c.output_buffer) rest);
          opened = record {
            output = a.valid;
            ready = s.ready;
            waits =
                (let more = readable_size-extended c.output_buffer a.after rest a.extends in
                  let on =
                    ap channel_write_event_is_enabled s.channel
                    ∙ channel_write_event_is_enabled-on (c.loop.channels c.channel) in
                  on ∙ ground arith);
          };
          same =
              ap
                (λ t. (
                  c.self, c.event_loop, c.channel, c.input_buffer, c.request, c.is_shut,
                  t.callback_data,
                ))
                s.channel;
        }

-- the bytes that are left, as the code computes their number
left_over : (n k : ℕ) → n < 2 ^ 31 → k ≤ n → (n + 2 ^ 64 - k) % 2 ^ 64 ≡ n - k
left_over n k small le = omega arith

pub nil_of : (xs : List ℕ) → length xs ≡ 0 → xs ≡ []
nil_of [] e = refl
nil_of (x ∷ xs) e = absurd (omega arith)

empty_of : (b : Buffer) → readable_size b ≡ 0 → content b ≡ []
unfolding readable_size cells
empty_of b e = rw e refl

-- the number of bytes that the kernel takes at once: nothing is tried while others wait
abbrev pub at_once : {S R : Type 0} → Connection S R → ℕ → ℕ
at_once c k = if is_waiting c then 0 else k

module _ {S R : Type 0} where
  -- What `tcp_connection_send_data` promises of its result and of the connection.
  pub record Sent (c : Connection S R) (bytes : List ℕ) (n : ℕ) (out : Option (ℕ × Connection S R))
      : Type 0 where
    pub after : Connection S R
    pub returns : out ≡ some (n, after)
    pub streams : stream after ≡ stream c ++ bytes
    pub opened : IsOpen after
    pub same : rest_of after ≡ rest_of c

  module _ (sys : System S) (able : IsAble sys) (before : Option ℕ) (bytes : List ℕ) where
    pub rest_kept :
        (c : Connection S R) (k : ℕ)
        → length bytes < 2 ^ 31
        → k < length bytes
        → send_rest sys before bytes k c
          ≡ (elim (keep_rest sys (drop k bytes) c) [ none ↦ none | some c' ↦ some (k, c') ])
    unfolding send_rest left_from
    rest_kept c k small less =
        let left = left_over (length bytes) k small (omega arith) in
        let more : ltb 0 (length bytes - k) ≡ true = ground arith in
        let inside : leb k (length bytes) ≡ true = ground arith in
        rw (left, more, inside, send_rest, left_from) refl

    rest_done :
        (c : Connection S R)
        → length bytes < 2 ^ 31
        → send_rest sys before bytes (length bytes) c ≡ some (length bytes, c)
    unfolding send_rest left_from
    rest_done c small =
        let left = left_over (length bytes) (length bytes) small (omega arith) in
        let none_left : ltb 0 (length bytes - length bytes) ≡ false = ground arith in
        rw (left, none_left) refl

    -- the connection after `write` has taken `k` bytes
    abbrev tried : Connection S R → ℕ → Connection S R
    tried c k = record c { sent = c.sent ++ take k bytes }

    idle_stream :
        (c : Connection S R) (k : ℕ)
        → content c.output_buffer ≡ []
        → stream (tried c k) ++ drop k bytes ≡ stream c ++ bytes
    idle_stream c k nothing =
        let done = c.sent ++ take k bytes in
        ap (λ t. (done ++ t) ++ drop k bytes) nothing
        ∙ ap (λ t. t ++ drop k bytes) (append-nil done)
        ∙ append_assoc c.sent (take k bytes) (drop k bytes)
        ∙ ap (λ t. c.sent ++ t) (take-append-drop k bytes)
        ∙ sym (ap (λ t. (c.sent ++ t) ++ bytes) nothing ∙ ap (λ t. t ++ bytes) (append-nil c.sent))

    send_waiting :
        (c : Connection S R) (k : ℕ)
        → IsOpen c
        → is_waiting c ≡ true
        → c.output_buffer.total_size + length bytes < 2 ^ 31
        → Sent c bytes 0 (send_data sys (pos k) before bytes c)
    unfolding send_data
    send_waiting c k o waiting small = elim (Bool-cases (ltb 0 (length bytes))) [
      | inl some_left ↦
          let d = keep_behind sys able bytes c o waiting small in
          record {
            after = d.after;
            returns =
                rw (waiting, rest_kept c 0 (omega arith) (ground arith), d.returns, send_data) refl;
            streams = d.streams;
            opened = d.opened;
            same = d.same;
          }
      | inr no_more ↦
          let none_left : length bytes ≡ 0 = ground arith in
          let done : send_rest sys before bytes 0 c ≡ some (0, c) =
            subst (λ n. send_rest sys before bytes n c ≡ some (n, c)) none_left
              (rest_done c (omega arith)) in
          record {
            after = c;
            returns = rw (waiting, send_data) done;
            streams =
                sym (ap (λ t. stream c ++ t) (nil_of bytes none_left) ∙ append-nil (stream c));
            opened = o;
            same = refl;
          }
    ]

    send_idle :
        (c : Connection S R) (k : ℕ)
        → IsOpen c
        → is_waiting c ≡ false
        → k ≤ length bytes
        → (k ≡ length bytes) ⊎ IsWired c
        → c.output_buffer.total_size + length bytes < 2 ^ 31
        → Sent c bytes k (send_data sys (pos k) before bytes c)
    unfolding send_data
    send_idle c k o waiting le finishes small =
        let nothing : readable_size c.output_buffer ≡ 0 = (let w = o.waits in ground arith) in
        let empty = empty_of c.output_buffer nothing in
        elim (Bool-cases (ltb k (length bytes))) [
          | inl some_left ↦
              let d =
                keep_first sys able (drop k bytes) (tried c k) o.output o.ready waiting nothing
                  (elim finishes [ inl all ↦ absurd (ground arith) | inr wired ↦ wired ])
                  (omega (arith, length-drop k bytes, ltb→lt k (length bytes) some_left))
                  (omega (arith, length-drop k bytes)) in
              record {
                after = d.after;
                returns =
                    rw
                      (
                        waiting,
                        nothing,
                        rest_kept (tried c k) k (omega arith) (ground arith),
                        d.returns,
                        send_data,
                      )
                      refl;
                streams = d.streams ∙ idle_stream c k empty;
                opened = d.opened;
                same = d.same;
              }
          | inr no_more ↦
              let all : length bytes ≡ k = ground arith in
              let rest : drop k bytes ≡ [] =
                nil_of (drop k bytes) (omega (arith, length-drop k bytes)) in
              let done : send_rest sys before bytes k (tried c k) ≡ some (k, tried c k) =
                subst (λ n. send_rest sys before bytes n (tried c k) ≡ some (n, tried c k)) all
                  (rest_done (tried c k) (omega arith)) in
              record {
                after = tried c k;
                returns = rw (waiting, nothing, send_data) done;
                streams =
                    sym (ap (λ t. stream (tried c k) ++ t) rest ∙ append-nil (stream (tried c k)))
                    ∙ idle_stream c k empty;
                opened = record { output = o.output; ready = o.ready; waits = o.waits };
                same = refl;
              }
        ]

    -- `tcp_connection_send_data` on an open connection, where write takes `k` of the bytes if it is
    -- called: it ends, the kernel has the bytes or they wait in the output buffer, all of them, once and
    -- behind those given before, and the connection is open still. Where some are left, the channel's
    -- data is to be the event loop; the buffer's size stays an int and the system is able.
    pub send_data-Sent :
        (c : Connection S R) (k : ℕ)
        → IsOpen c
        → k ≤ length bytes
        → (k ≡ length bytes) ⊎ IsWired c
        → c.output_buffer.total_size + length bytes < 2 ^ 31
        → Sent c bytes (at_once c k) (send_data sys (pos k) before bytes c)
    send_data-Sent c k o le finishes small = elim (Bool-cases (is_waiting c)) [
      | inl waiting ↦ rw waiting (send_waiting c k o waiting small)
      | inr idle ↦ rw idle (send_idle c k o idle le finishes small)
    ]
