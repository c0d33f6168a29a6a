-- ===== src/Buffer/Append.antt =====
-- The appends add bytes behind the readable ones.
use cpp_example_code.Base.{
  ℕ, ◌+◌, ◌-◌, ◌^◌, ◌≤◌, ◌<◌, ◌≡◌, refl, ap, ◌∙◌, true, Option, some, List, [], ◌∷◌, ◌++◌, arith,
}
use cpp_example_code.Base.Tests.{leb}
use cpp_example_code.Base.Lists.{length}
use cpp_example_code.Buffer.Ops.{Buffer, write_at, put_bytes, append, append_char, cells}
use cpp_example_code.Buffer.Bytes.{
  same_place, cells_shift, cells-append, cells_whole, length-write_at, write_at-before,
  write_at-there,
}
use cpp_example_code.Buffer.Room.{IsBuffer, content, make_room-HasRoom}

-- What an append promises of the buffer after it.
pub record Appended (b : Buffer) (src : List ℕ) (out : Option Buffer) : Type 0 where
  pub after : Buffer
  pub returns : out ≡ some after
  pub valid : IsBuffer after
  pub extends : content after ≡ content b ++ src

abbrev pub written : Buffer → List ℕ → Buffer
written b src = record b {
  bytes = write_at b.bytes b.write_index src;
  write_index = b.write_index + length src;
}

pub put_bytes-some :
    (b : Buffer) (src : List ℕ)
    → IsBuffer b
    → b.write_index + length src ≤ b.total_size
    → put_bytes b src ≡ some (written b src)
unfolding put_bytes
put_bytes-some b src v room =
    let sized = v.sized in
    let ok : leb (b.write_index + length src) (length b.bytes) ≡ true = ground arith in rw ok refl

pub written-IsBuffer :
    (b : Buffer) (src : List ℕ)
    → IsBuffer b
    → b.write_index + length src ≤ b.total_size
    → IsBuffer (written b src)
written-IsBuffer b src v room = record {
  ordered = omega (arith, v.ordered);
  bounded = room;
  sized = length-write_at b.bytes b.write_index src ∙ v.sized;
}

pub written_content :
    (b : Buffer) (src : List ℕ)
    → IsBuffer b
    → b.write_index + length src ≤ b.total_size
    → content (written b src) ≡ content b ++ src
written_content b src v room =
    let inside : b.write_index + length src ≤ length b.bytes = rw v.sized room in
    let n = b.write_index - b.read_index in
    let out = write_at b.bytes b.write_index src in
    let longer : b.write_index + length src - b.read_index ≡ n + length src =
      omega (arith, v.ordered) in
    ap (λ t. cells t b.read_index out) longer
    ∙ cells-append n (length src) b.read_index out
    ∙ ap (λ t. t ++ cells (length src) (b.read_index + n) out)
        (cells_shift n b.read_index b.read_index out b.bytes (λ k h.
          write_at-before b.bytes b.write_index src (b.read_index + k) inside (omega arith)))
    ∙ ap (λ t. content b ++ t)
        (cells_shift (length src) (b.read_index + n) 0 out src (λ k h.
            same_place out (b.read_index + n + k) (b.write_index + k) (omega (arith, v.ordered))
            ∙ write_at-there b.bytes b.write_index src k inside h
            ∙ same_place src k (0 + k) (omega arith))
          ∙ cells_whole src)

pub put_bytes-Appended :
    (b : Buffer) (src : List ℕ)
    → IsBuffer b
    → b.write_index + length src ≤ b.total_size
    → Appended b src (put_bytes b src)
put_bytes-Appended b src v room = record {
  after = written b src;
  returns = put_bytes-some b src v room;
  valid = written-IsBuffer b src v room;
  extends = written_content b src v room;
}

-- `buffer_append` of any bytes to a buffer whose indices are in order puts them behind the readable
-- ones and keeps the indices in order, if memory is there for a growth and the size stays an `int`.
pub append-Appended :
    (b : Buffer) (src more : List ℕ)
    → IsBuffer b
    → length more ≡ length src
    → b.total_size + length src < 2 ^ 31
    → Appended b src (append (some more) b src)
unfolding append
append-Appended b src more v fresh small =
    let m = make_room-HasRoom b (length src) more v fresh small in
    let a = put_bytes-Appended m.after src m.valid m.room in
    rw (m.returns, append)
      (record {
        after = a.after;
        returns = a.returns;
        valid = a.valid;
        extends = a.extends ∙ ap (λ t. t ++ src) m.same;
      })

-- `buffer_append_char` puts the byte behind the readable ones, under the same conditions.
pub append_char-Appended :
    (b : Buffer) (c m : ℕ)
    → IsBuffer b
    → b.total_size + 1 < 2 ^ 31
    → Appended b (c ∷ []) (append_char (some (m ∷ [])) b c)
unfolding append_char
append_char-Appended b c m v small =
    let r = make_room-HasRoom b 1 (m ∷ []) v (omega arith) small in
    let a = put_bytes-Appended r.after (c ∷ []) r.valid (omega (arith, r.room)) in
    rw (r.returns, append_char)
      (record {
        after = a.after;
        returns = a.returns;
        valid = a.valid;
        extends = a.extends ∙ ap (λ t. t ++ (c ∷ [])) r.same;
      })
