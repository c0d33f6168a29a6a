-- ===== src/Buffer/Tests.antt =====
-- A small buffer through its operations, and the theorems at it.
use cpp_example_code.Base.{ℕ, ◌≡◌, refl, Option, none, some, List, [], ◌∷◌, arith}
use cpp_example_code.Base.Loops.{for_each}
use cpp_example_code.Buffer.Ops.{
  Buffer, writeable_size, readable_size, front_spare_size, copy_down, make_room, write_at,
  put_bytes, append, append_char, socket_read, read_char, find_crlf,
}
use cpp_example_code.Buffer.Room.{IsBuffer, content}
use cpp_example_code.Buffer.Append.{Appended, append-Appended, append_char-Appended}
use cpp_example_code.Buffer.Socket.{Received, socket_read-Received}
use cpp_example_code.Buffer.Reading.{CharRead, read_char-CharRead, IsFirst, find_crlf-IsFirst}

-- six bytes, of which the last three are readable and one more fits behind them
abbrev small : Buffer
small = record {
  bytes = 1 ∷ 2 ∷ 13 ∷ 10 ∷ 5 ∷ 0 ∷ [];
  read_index = 2;
  write_index = 5;
  total_size = 6;
}

small-IsBuffer : IsBuffer small
small-IsBuffer = record { ordered = omega arith; bounded = omega arith; sized = refl }

abbrev bytes_of : Option Buffer → List ℕ
bytes_of none = []
bytes_of (some b) = b.bytes

-- two bytes fit after the readable ones have moved to the front
append_moves : bytes_of (append none small (7 ∷ 8 ∷ [])) ≡ 13 ∷ 10 ∷ 5 ∷ 7 ∷ 8 ∷ 0 ∷ []
unfolding append make_room writeable_size front_spare_size readable_size copy_down for_each
    put_bytes write_at
append_moves = refl

-- four do not, and without memory for a growth they would leave the data
append_overruns : append none small (7 ∷ 8 ∷ 9 ∷ 9 ∷ []) ≡ none
unfolding append make_room writeable_size front_spare_size readable_size copy_down for_each
    put_bytes write_at
append_overruns = refl

append-Appended_example :
    Appended small
      (7 ∷ 8 ∷ 9 ∷ 9 ∷ [])
      (append (some (0 ∷ 0 ∷ 0 ∷ 0 ∷ [])) small (7 ∷ 8 ∷ 9 ∷ 9 ∷ []))
append-Appended_example =
    append-Appended small (7 ∷ 8 ∷ 9 ∷ 9 ∷ []) (0 ∷ 0 ∷ 0 ∷ 0 ∷ []) small-IsBuffer refl
      (omega arith)

append_char_test : Appended small (7 ∷ []) (append_char (some (0 ∷ [])) small 7)
append_char_test = append_char-Appended small 7 0 small-IsBuffer (omega arith)

socket_read-Received_example :
    Received small (7 ∷ 8 ∷ 9 ∷ []) (socket_read (some (0 ∷ 0 ∷ [])) small (some (7 ∷ 8 ∷ 9 ∷ [])))
socket_read-Received_example =
    socket_read-Received small (7 ∷ 8 ∷ 9 ∷ []) (0 ∷ 0 ∷ []) small-IsBuffer refl (omega arith)

read_char_test : CharRead small (read_char small)
read_char_test = read_char-CharRead small small-IsBuffer (omega arith)

find_crlf-IsFirst_example : IsFirst (content small) (find_crlf small)
find_crlf-IsFirst_example = find_crlf-IsFirst small
