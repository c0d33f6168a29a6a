-- ===== src/Buffer/Socket.antt =====
-- `buffer_socket_read`: what the socket gave stands behind the readable bytes.
use cpp_example_code.Base.{
  ℕ, ◌+◌, ◌-◌, ◌^◌, ◌≤◌, ◌<◌, ◌≡◌, refl, sym, ap, ◌∙◌, true, false, Option, some, List, [], ◌∷◌,
  ◌++◌, arith,
}
use native.Mathlib.Decide.{dec_lt}
use cpp_example_code.Base.Tests.{leb}
use cpp_example_code.Base.Lists.{length, take, drop, length-take, length-drop, take-append-drop}
use cpp_example_code.Base.Int.{ℤ, pos}
use cpp_example_code.Buffer.Ops.{Buffer, writeable_size, socket_read}
use cpp_example_code.Buffer.Room.{IsBuffer, content}
use cpp_example_code.Buffer.Append.{
  written, put_bytes-some, written-IsBuffer, written_content, put_bytes-Appended, append-Appended,
}

-- What a read from the socket promises: the number of bytes, all of them behind the readable ones.
pub record Received (b : Buffer) (src : List ℕ) (out : Option (ℤ × Buffer)) : Type 0 where
  pub after : Buffer
  pub returns : out ≡ some (pos (length src), after)
  pub valid : IsBuffer after
  pub extends : content after ≡ content b ++ src

append_assoc : (xs ys zs : List ℕ) → (xs ++ ys) ++ zs ≡ xs ++ (ys ++ zs)
append_assoc [] ys zs = refl
append_assoc (x ∷ xs) ys zs = ap (λ t. x ∷ t) (append_assoc xs ys zs)

length-take_part : (n : ℕ) (src : List ℕ) → n ≤ length src → length (take n src) ≡ n
length-take_part n src h = omega (arith, length-take n src)

short_read :
    (memory : Option (List ℕ)) (b : Buffer) (src : List ℕ)
    → IsBuffer b
    → length src ≤ b.total_size - b.write_index
    → Received b src (socket_read memory b (some src))
unfolding socket_read writeable_size
short_read memory b src v short =
    let fits : leb (length src) (b.total_size - b.write_index) ≡ true = ground arith in
    let a = put_bytes-Appended b src v (omega (arith, v.bounded)) in
    rw (fits, a.returns)
      (record { after = a.after; returns = refl; valid = a.valid; extends = a.extends })

long_read :
    (b : Buffer) (src more : List ℕ)
    → IsBuffer b
    → b.total_size - b.write_index < length src
    → length more ≡ length src - (b.total_size - b.write_index)
    → b.total_size + length src < 2 ^ 31
    → Received b src (socket_read (some more) b (some src))
unfolding socket_read writeable_size
long_read b src more v long fresh small =
    let room = b.total_size - b.write_index in
    let over : leb (length src) room ≡ false = ground arith in
    let part : length (take room src) ≡ room = length-take_part room src (omega arith) in
    let tail : length (drop room src) ≡ length src - room = length-drop room src in
    let within : b.write_index + length (take room src) ≤ b.total_size = omega (arith, v.bounded) in
    let full : b.write_index + length (take room src) ≡ b.total_size = omega (arith, v.bounded) in
    let first = put_bytes-some b (take room src) v within in
    let b' : Buffer = record (written b (take room src)) { write_index = b.total_size } in
    let same : written b (take room src) ≡ b' =
      ap (λ (t : ℕ). record (written b (take room src)) { write_index = t }) full in
    let v' : IsBuffer b' = rw same at (written-IsBuffer b (take room src) v within) in
    let c' : content b' ≡ content b ++ take room src =
      ap content (sym same) ∙ written_content b (take room src) v within in
    let a = append-Appended b' (drop room src) more v' (omega arith) (omega arith) in
    rw (over, first, a.returns)
      (record {
        after = a.after;
        returns = refl;
        valid = a.valid;
        extends =
            a.extends
            ∙ ap (λ t. t ++ drop room src) c'
            ∙ append_assoc (content b) (take room src) (drop room src)
            ∙ ap (λ t. content b ++ t) (take-append-drop room src);
      })

-- `buffer_socket_read` returns the number of bytes that the socket gave and puts all of them behind
-- the readable ones, also those that do not fit the buffer as it is, if memory is there for a
-- growth and the size stays an `int`.
pub socket_read-Received :
    (b : Buffer) (src more : List ℕ)
    → IsBuffer b
    → length more ≡ length src - (b.total_size - b.write_index)
    → b.total_size + length src < 2 ^ 31
    → Received b src (socket_read (some more) b (some src))
socket_read-Received b src more v fresh small =
    elim (dec_lt (b.total_size - b.write_index) (length src)) [
      | yes long ↦ long_read b src more v long fresh small
      | no short ↦ short_read (some more) b src v (omega arith)
    ]
