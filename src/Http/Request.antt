-- ===== src/Http/Request.antt =====
-- httptest-geektime/lib/http_request.c and the parser of http_server.c. A string is the block of memory
-- that malloc gave for it. `none` is a run that C does not define (a read or a write outside a block, or a use of
-- NULL) or that an assert stops, or that does not come to its end.
use cpp_example_code.Base.{
  ℕ, zero, suc, ◌+◌, Bool, true, false, ◌&&◌, Option, none, some, List, [], ◌∷◌, ◌++◌,
}
use cpp_example_code.Base.Tests.{ltb, ◌==◌, if◌then◌else◌}
use cpp_example_code.Base.Lists.{length, replicate, set, take, drop}
use cpp_example_code.Base.Int.{ℤ, pos, negsuc}
use cpp_example_code.Buffer.Ops.{Buffer, cells, further, find_crlf}

-- `struct request_header`
pub record Header : Type 0 where
  pub key : List ℕ
  pub value : List ℕ

-- `enum http_request_state`
pub data RequestState : Type 0 where
  request_status : RequestState
  request_headers : RequestState
  request_body : RequestState
  request_done : RequestState

-- The bytes that http_request_new asks for are 128 times the size of a struct http_request, 48 on a 64-bit
-- machine, and a struct request_header has 16.
abbrev pub header_room : ℕ
header_room = 384

-- `struct http_request`, with the headers that its array holds
pub record Request : Type 0 where
  pub version : Option (List ℕ)
  pub method : Option (List ℕ)
  pub url : Option (List ℕ)
  pub current_state : RequestState
  pub headers : List Header

unfoldable pub request_new : Request
request_new = record {
  version = none;
  method = none;
  url = none;
  current_state = request_status;
  headers = [];
}

unfoldable pub request_reset : Request → Request
request_reset r = record r {
  version = none;
  method = none;
  url = none;
  current_state = request_status;
  headers = [];
}

-- `http_request_add_header`, which writes behind the array where it is full
unfoldable pub add_header : Request → List ℕ → List ℕ → Option Request
add_header r key value =
    if ltb (length r.headers) header_room
    then some (record r { headers = r.headers ++ (record { key = key; value = value } ∷ []) })
    else none

-- `strncmp(block, text, strlen(text)) == 0` for a text without NUL
unfoldable pub starts_with : List ℕ → List ℕ → Option Bool
starts_with block [] = some true
starts_with [] (c ∷ text) = none
starts_with (x ∷ block) (c ∷ text) =
    let rest = starts_with block text in if x == c then rest else some false

-- the loop of `http_request_get_header`
unfoldable pub find_header : List Header → List ℕ → Option (Option (List ℕ))
find_header [] key = some none
find_header (h ∷ headers) key =
    let rest = find_header headers key in
    elim (starts_with h.key key) [
      | none ↦ none
      | some true ↦ some (some h.value)
      | some false ↦ rest
    ]

unfoldable pub get_header : Request → List ℕ → Option (Option (List ℕ))
get_header r key = find_header r.headers key

-- `strncpy`, which puts zeros behind a NUL
unfoldable pub copied : List ℕ → List ℕ
copied [] = []
copied (x ∷ src) = if x == 0 then replicate (suc (length src)) 0 else x ∷ copied src

-- `memmem` for one byte, and for two
unfoldable pub find_byte : ℕ → List ℕ → Option ℕ
find_byte c [] = none
find_byte c (x ∷ src) = let rest = further (find_byte c src) in if x == c then some 0 else rest

unfoldable pub find_two : ℕ → ℕ → List ℕ → Option ℕ
find_two c d [] = none
find_two c d (x ∷ []) = none
find_two c d (x ∷ y ∷ src) =
    let rest = further (find_two c d (y ∷ src)) in if x == c && y == d then some 0 else rest

-- `input->readIndex += n`
abbrev pub advance : Buffer → ℕ → Buffer
advance b n = record b { read_index = b.read_index + n }

-- a line that has been found in the state REQUEST_HEADERS
unfoldable pub header_line : Buffer → Request → List ℕ → Option (Buffer × Request)
header_line b r line = elim (find_two 58 32 line) [
  | none ↦ some (advance b 2, record r { current_state = request_done })
  | some c ↦
      elim (add_header r (copied (take c line) ++ (0 ∷ []))
        (copied (drop (c + 2) line) ++ (0 ∷ []))) [
          | none ↦ none
          | some r' ↦ some (advance b (length line + 2), r')
        ]
]

abbrev pub is_done : RequestState → Bool
is_done request_done = true
is_done _ = false

-- The string that process_status_line makes of `text` in the block that malloc gave for its length and one byte
-- more: the NUL goes one place too far, behind the bytes that were asked for, and the place before it is not written.
-- `memory` is all that can be used of the block, which malloc_usable_size counts; it may be more than was asked for,
-- and where it is not, the write destroys what is behind the block.
unfoldable pub stored_text : List ℕ → List ℕ → Option (List ℕ)
stored_text text memory =
    if ltb (length text + 1) (length memory)
    then some (copied text ++ set (drop (length text) memory) 1 0)
    else none

-- `heap` is the memory of the blocks for the method, the URL and the version, by the size that is asked for.
module _ (heap : ℕ → ℕ → List ℕ) where
  -- the three strings of `process_status_line`
  unfoldable pub status_texts : List ℕ → List ℕ → List ℕ → Request → Option Request
  status_texts method url version r = elim (stored_text method (heap 0 (length method + 1))) [
    | none ↦ none
    | some m ↦ elim (stored_text url (heap 1 (length url + 1))) [
      | none ↦ none
      | some u ↦ elim (stored_text version (heap 2 (length version + 1))) [
        | none ↦ none
        | some v ↦ some (record r { method = some m; url = some u; version = some v })
      ]
    ]
  ]

  -- `process_status_line` on the bytes between `start` and `end`, less the size, which is their number
  unfoldable pub process_status_line : List ℕ → Request → Option Request
  process_status_line line r = elim (find_byte 32 line) [
    | none ↦ none
    | some i ↦ elim (find_byte 32 (drop (suc i) line)) [
      | none ↦ none
      | some j ↦
          status_texts (take i line) (take j (drop (suc i) line)) (drop (suc j) (drop (suc i) line))
            r
    ]
  ]

  -- one round of the loop of `parse_http_request`, by the state
  unfoldable pub round_in : RequestState → Buffer → Request → Option (Buffer × Request)
  round_in request_status b r = elim (find_crlf b) [
    | none ↦ some (b, r)
    | some k ↦ elim (process_status_line (cells k b.read_index b.bytes) r) [
      | none ↦ none
      | some r' ↦
          if k == 0
          then some (b, r')
          else some (advance b (k + 2), record r' { current_state = request_headers })
    ]
  ]
  round_in request_headers b r = elim (find_crlf b) [
    | none ↦ some (b, r)
    | some k ↦ header_line b r (cells k b.read_index b.bytes)
  ]
  round_in request_body b r = some (b, r)
  round_in request_done b r = some (b, r)

  unfoldable pub parse_round : Buffer → Request → Option (Buffer × Request)
  parse_round b r = round_in r.current_state b r

  -- `parse_http_request`, which returns 1 where it returns, on `fuel` rounds
  unfoldable pub parse_http_request : ℕ → Buffer → Request → Option (ℕ × Buffer × Request)
  parse_http_request zero b r = none
  parse_http_request (suc fuel) b r =
      if is_done r.current_state
      then some (1, b, r)
      else elim (parse_round b r) [ none ↦ none | some (b', r') ↦ parse_http_request fuel b' r' ]

-- "Connection", "close", "HTTP/1.0" and "Keep-Alive"
abbrev pub connection_key : List ℕ
connection_key = 67 ∷ 111 ∷ 110 ∷ 110 ∷ 101 ∷ 99 ∷ 116 ∷ 105 ∷ 111 ∷ 110 ∷ []

abbrev pub close_text : List ℕ
close_text = 99 ∷ 108 ∷ 111 ∷ 115 ∷ 101 ∷ []

abbrev pub http10 : List ℕ
http10 = 72 ∷ 84 ∷ 84 ∷ 80 ∷ 47 ∷ 49 ∷ 46 ∷ 48 ∷ []

abbrev pub keep_alive : List ℕ
keep_alive = 75 ∷ 101 ∷ 101 ∷ 112 ∷ 45 ∷ 65 ∷ 108 ∷ 105 ∷ 118 ∷ 101 ∷ []

-- the second test of `http_request_close_connection`; `strncmp` is what strncmp answers for a block and a text
unfoldable pub old_version_closes :
    (List ℕ → List ℕ → ℤ) → Option (List ℕ) → Option (List ℕ) → Option Bool
old_version_closes strncmp none connection = some false
old_version_closes strncmp (some version) connection = elim (starts_with version http10) [
  | none ↦ none
  | some false ↦ some false
  | some true ↦ elim connection [
    | none ↦ none
    | some block ↦ elim (strncmp block keep_alive) [ pos n ↦ some (n == 1) | negsuc n ↦ some false ]
  ]
]

unfoldable pub close_connection : (List ℕ → List ℕ → ℤ) → Request → Option Bool
close_connection strncmp r = elim (get_header r connection_key) [
  | none ↦ none
  | some none ↦ old_version_closes strncmp r.version none
  | some (some block) ↦ elim (starts_with block close_text) [
    | none ↦ none
    | some true ↦ some true
    | some false ↦ old_version_closes strncmp r.version (some block)
  ]
]
