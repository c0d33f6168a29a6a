-- ===== src/Buffer/Room.antt =====
-- `make_room`: the invariant of a buffer, its readable bytes, and room for more of them.
use cpp_example_code.Base.{
  ℕ, zero, suc, ◌+◌, ◌-◌, ◌^◌, ◌≤◌, ◌<◌, ◌≡◌, refl, ap, ◌∙◌, inl, inr, true, false, Option, some,
  List, [], ◌∷◌, ◌++◌, arith,
}
use cpp_example_code.Base.Tests.{ltb, leb, Bool-cases}
use cpp_example_code.Base.Lists.{length, get_or, length-append}
use cpp_example_code.Buffer.Ops.{
  Buffer, writeable_size, readable_size, front_spare_size, copy_down, make_room, cells,
}
use cpp_example_code.Buffer.Bytes.{same_place, cells_shift, length-copy_down, copy_down_lem}

-- The indices are in order and within the memory.
pub record IsBuffer (b : Buffer) : Type 0 where
  pub ordered : b.read_index ≤ b.write_index
  pub bounded : b.write_index ≤ b.total_size
  pub sized : length b.bytes ≡ b.total_size

-- The bytes that were written and not read yet.
abbrev pub content : Buffer → List ℕ
content b = cells (b.write_index - b.read_index) b.read_index b.bytes

-- What `make_room` promises: room for `size` bytes, and the same content.
pub record HasRoom (b : Buffer) (size : ℕ) (out : Option Buffer) : Type 0 where
  pub after : Buffer
  pub returns : out ≡ some after
  pub valid : IsBuffer after
  pub room : after.write_index + size ≤ after.total_size
  pub same : content after ≡ content b

moved-HasRoom :
    (b : Buffer) (size : ℕ)
    → IsBuffer b
    → size ≤ b.read_index + (b.total_size - b.write_index)
    → HasRoom b size (
        some (record b {
          bytes = copy_down b.read_index (b.write_index - b.read_index) b.bytes;
          read_index = 0;
          write_index = b.write_index - b.read_index;
        }))
moved-HasRoom b size v fits =
    let n = b.write_index - b.read_index in
    record {
      after = record b {
        bytes = copy_down b.read_index n b.bytes;
        read_index = 0;
        write_index = n;
      };
      returns = refl;
      valid = record {
        ordered = omega arith;
        bounded = omega (arith, v.bounded);
        sized = length-copy_down b.read_index n b.bytes ∙ v.sized;
      };
      room = omega (arith, v.bounded, v.ordered);
      same =
          let e : n - 0 ≡ n = omega arith in
          ap (λ t. cells t 0 (copy_down b.read_index n b.bytes)) e
          ∙ cells_shift n 0 b.read_index (copy_down b.read_index n b.bytes) b.bytes (λ k h.
            let copied : ltb (0 + k) n ≡ true = ground arith in
            (rw copied at (
              copy_down_lem b.read_index n b.bytes (0 + k)
                (omega (arith, v.ordered, v.bounded, v.sized))))
            ∙ same_place b.bytes (b.read_index + (0 + k)) (b.read_index + k) (omega arith));
    }

get_or-append : (xs ys : List ℕ) (i : ℕ) → i < length xs → get_or (xs ++ ys) i 0 ≡ get_or xs i 0
get_or-append [] ys i h = absurd (omega arith)
get_or-append (x ∷ xs) ys zero h = refl
get_or-append (x ∷ xs) ys (suc i) h = get_or-append xs ys i (omega arith)

grown-HasRoom :
    (b : Buffer) (size : ℕ) (more : List ℕ)
    → IsBuffer b
    → length more ≡ size
    → HasRoom b size (some (record b { bytes = b.bytes ++ more; total_size = b.total_size + size }))
grown-HasRoom b size more v fresh = record {
  after = record b { bytes = b.bytes ++ more; total_size = b.total_size + size };
  returns = refl;
  valid = record {
    ordered = v.ordered;
    bounded = omega (arith, v.bounded);
    sized = omega (arith, length-append b.bytes more, v.sized);
  };
  room = omega (arith, v.bounded);
  same =
      cells_shift (b.write_index - b.read_index) b.read_index b.read_index (b.bytes ++ more) b.bytes
        (λ k h. get_or-append b.bytes more (b.read_index + k) (omega (arith, v.bounded, v.sized)));
}

-- With memory for a growth within `int`, `make_room` makes room.
pub make_room-HasRoom :
    (b : Buffer) (size : ℕ) (more : List ℕ)
    → IsBuffer b
    → length more ≡ size
    → b.total_size + size < 2 ^ 31
    → HasRoom b size (make_room (some more) b size)
unfolding make_room writeable_size readable_size front_spare_size
make_room-HasRoom b size more v fresh small =
    elim (Bool-cases (leb size (b.total_size - b.write_index))) [
      | inl there ↦ rw there (record {
        after = b;
        returns = refl;
        valid = v;
        room = (let bounded = v.bounded in ground arith);
        same = refl;
      })
      | inr tight ↦ elim (Bool-cases (leb size (b.read_index + (b.total_size - b.write_index)))) [
        | inl movable ↦ rw (tight, movable) (moved-HasRoom b size v (ground arith))
        | inr full ↦
            let within : leb (2 ^ 31) (b.total_size + size) ≡ false = ground arith in
            rw (tight, full, within) (grown-HasRoom b size more v fresh)
      ]
    ]
