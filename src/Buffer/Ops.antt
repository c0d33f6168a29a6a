-- ===== src/Buffer/Ops.antt =====
-- The functions of httptest-geektime/lib/buffer.c, under the source's names less the prefix buffer_.
-- `none` is a run that C does not define: a sum that leaves `int`, or an access outside `data`.
use cpp_example_code.Base.{
  ℕ, zero, suc, ◌+◌, ◌-◌, ◌^◌, Bool, true, false, ◌&&◌, Option, none, some, List, [], ◌∷◌, ◌++◌,
}
use cpp_example_code.Base.Tests.{ltb, leb, ◌==◌, if◌then◌else◌}
use cpp_example_code.Base.Lists.{length, get_or, set, take, drop}
use cpp_example_code.Base.Loops.{for_each}
use cpp_example_code.Base.Int.{ℤ, pos, negsuc}

-- `struct buffer`; `bytes` is the memory behind the pointer.
pub record Buffer : Type 0 where
  pub bytes : List ℕ
  pub read_index : ℕ
  pub write_index : ℕ
  pub total_size : ℕ

abbrev pub init_buffer_size : ℕ
init_buffer_size = 65536

-- `buffer_new`, where the memory for the struct and for the data are the allocator's answers
unfoldable pub new : Bool → List ℕ → Option Buffer
new false memory = none
new true memory =
    some (record { bytes = memory; read_index = 0; write_index = 0; total_size = init_buffer_size })

unfoldable pub writeable_size : Buffer → ℕ
writeable_size b = b.total_size - b.write_index

unfoldable pub readable_size : Buffer → ℕ
readable_size b = b.write_index - b.read_index

unfoldable pub front_spare_size : Buffer → ℕ
front_spare_size b = b.read_index

-- the loop of `make_room` that copies the readable bytes to the front, one after the other
unfoldable pub copy_down : ℕ → ℕ → List ℕ → List ℕ
unfolding for_each
copy_down from n src = for_each n (λ i d. set d i (get_or d (from + i) 0)) src

-- `make_room`; `memory` is what `realloc` puts behind the old bytes, if it has memory.
unfoldable pub make_room : Option (List ℕ) → Buffer → ℕ → Option Buffer
make_room memory b size =
    if leb size (writeable_size b)
    then some b
    else if leb size (front_spare_size b + writeable_size b)
    then some (record b {
      bytes = copy_down b.read_index (readable_size b) b.bytes;
      read_index = 0;
      write_index = readable_size b;
    })
    else if leb (2 ^ 31) (b.total_size + size)
    then none
    else elim memory [
      | none ↦ some b
      | some more ↦ some (record b { bytes = b.bytes ++ more; total_size = b.total_size + size })
    ]

-- `memcpy(data + at, src, size)`
unfoldable pub write_at : List ℕ → ℕ → List ℕ → List ℕ
write_at d at [] = d
write_at d at (x ∷ src) = write_at (set d at x) (at + 1) src

-- the copy behind the bytes that are there
unfoldable pub put_bytes : Buffer → List ℕ → Option Buffer
put_bytes b src =
    if leb (b.write_index + length src) (length b.bytes)
    then some (record b {
      bytes = write_at b.bytes b.write_index src;
      write_index = b.write_index + length src;
    })
    else none

-- `buffer_append` of bytes that are not NULL, and `buffer_append_string` of a string's bytes
unfoldable pub append : Option (List ℕ) → Buffer → List ℕ → Option Buffer
append memory b src = elim (make_room memory b (length src)) [
  | none ↦ none
  | some b' ↦ put_bytes b' src
]

unfoldable pub append_char : Option (List ℕ) → Buffer → ℕ → Option Buffer
append_char memory b c = elim (make_room memory b 1) [
  | none ↦ none
  | some b' ↦ put_bytes b' (c ∷ [])
]

-- `buffer_socket_read`: `received` is what `readv` stored, `none` for its failure.
unfoldable pub socket_read : Option (List ℕ) → Buffer → Option (List ℕ) → Option (ℤ × Buffer)
socket_read memory b none = some (negsuc 0, b)
socket_read memory b (some received) =
    let room = writeable_size b in
    if leb (length received) room
    then (elim (put_bytes b received) [ none ↦ none | some b' ↦ some (pos (length received), b') ])
    else elim (put_bytes b (take room received)) [
      | none ↦ none
      | some b' ↦
          elim (append memory (record b' { write_index = b.total_size }) (drop room received)) [
            | none ↦ none
            | some b'' ↦ some (pos (length received), b'')
          ]
    ]

unfoldable pub read_char : Buffer → Option (ℕ × Buffer)
read_char b =
    if ltb b.read_index (length b.bytes)
    then some (get_or b.bytes b.read_index 0, record b { read_index = b.read_index + 1 })
    else none

-- The readable bytes, from `from` on.
unfoldable pub cells : ℕ → ℕ → List ℕ → List ℕ
cells zero from src = []
cells (suc n) from src = get_or src from 0 ∷ cells n (from + 1) src

abbrev pub further : Option ℕ → Option ℕ
further none = none
further (some k) = some (suc k)

-- `memmem` for "\r\n": the place where the first one starts
unfoldable pub find_pair : List ℕ → Option ℕ
find_pair [] = none
find_pair (x ∷ []) = none
find_pair (x ∷ y ∷ src) =
    let rest = further (find_pair (y ∷ src)) in if x == 13 && y == 10 then some 0 else rest

-- `buffer_find_CRLF`, as the distance from `data + readIndex`
unfoldable pub find_crlf : Buffer → Option ℕ
find_crlf b = find_pair (cells (readable_size b) b.read_index b.bytes)
