-- ===== src/Http/Tests.antt =====
-- Runs of the parser, and its theorems at concrete buffers.
use cpp_example_code.Base.{
  ℕ, ◌+◌, ◌≡◌, refl, true, false, Option, none, some, List, [], ◌∷◌, ◌++◌, map, arith,
}
use cpp_example_code.Base.Int.{pos}
use cpp_example_code.Base.Lists.{length-replicate, replicate}
use cpp_example_code.Buffer.Ops.{Buffer, cells, find_pair, find_crlf, readable_size}
use cpp_example_code.Buffer.Append.{Appended}
use cpp_example_code.Buffer.Room.{IsBuffer, content}
use cpp_example_code.Http.Request.{
  Request, request_done, request_new, request_reset, add_header, starts_with, find_header,
  get_header, copied, find_byte, find_two, stored_text, status_texts, process_status_line,
  header_line, round_in, parse_round, parse_http_request, old_version_closes, close_connection,
}
use cpp_example_code.Http.Response.{
  Response, digits_before, decimal, header_strings, response_strings, append_string, append_strings,
  response_encode_buffer, response_bytes, response_encode_buffer-Appended,
}
use cpp_example_code.Http.Lines.{Field, fields_bytes, stored}
use cpp_example_code.Http.Fields.{Parsed, finished}
use cpp_example_code.Http.StatusLine.{stated, status_line}
use cpp_example_code.Http.Parse.{
  parse_http_request-Parsed, parse_http_request_stalls, parse_http_request_overflows,
}
use cpp_example_code.EventLoop.State.{null, Dispatcher}
use cpp_example_code.Connection.Ops.{Connection, System}
use cpp_example_code.Http.Server.{Server}
use cpp_example_code.Http.Served.{Message}

program : Unit {0}
unfolding cells find_pair find_crlf readable_size request_new request_reset add_header starts_with
    find_header get_header copied find_byte find_two stored_text status_texts process_status_line
    header_line round_in parse_round parse_http_request old_version_closes close_connection
    digits_before header_strings response_strings append_string append_strings
    response_encode_buffer
program = tt

-- "GET", "/a", "HTTP/1.1", "Host" and "x"
abbrev get : List ℕ
get = 71 ∷ 69 ∷ 84 ∷ []

abbrev url_a : List ℕ
url_a = 47 ∷ 97 ∷ []

abbrev http11 : List ℕ
http11 = 72 ∷ 84 ∷ 84 ∷ 80 ∷ 47 ∷ 49 ∷ 46 ∷ 49 ∷ []

abbrev host : List ℕ
host = 72 ∷ 111 ∷ 115 ∷ 116 ∷ []

abbrev fields : List Field
fields = (host, 120 ∷ []) ∷ []

-- blocks with seven bytes more than was asked for, which hold 200 and so on
abbrev junk : ℕ → ℕ → List ℕ
junk i n = replicate (7 + n) (200 + i)

abbrev bytes : List ℕ
bytes = status_line get url_a http11 ++ (13 ∷ 10 ∷ fields_bytes fields (33 ∷ []))

abbrev received : Buffer
received = record { bytes = bytes; read_index = 0; write_index = 29; total_size = 29 }

received-IsBuffer : IsBuffer received
received-IsBuffer = record { ordered = omega arith; bounded = omega arith; sized = refl }

content-received : content received ≡ bytes
unfolding program
content-received = refl

parse_http_request-Parsed_example :
    Parsed junk
      (finished (stated junk get url_a http11 request_new) (map stored fields))
      (33 ∷ [])
      (parse_http_request junk 4 received request_new)
parse_http_request-Parsed_example =
    parse_http_request-Parsed junk 4 received get url_a http11 fields (33 ∷ []) received-IsBuffer
      content-received refl refl (record { no_nul = refl; no_cr = refl })
      (record { no_nul = refl; no_cr = refl }) (record { no_nul = refl; no_cr = refl })
      (omega arith) (omega arith) (omega arith)
      ((record { no_nul = refl; no_cr = refl }, refl, record { no_nul = refl; no_cr = refl }), tt)
      (omega arith) (omega arith)

-- the first bytes of a request, before its line end has come
abbrev partial : Buffer
partial = record received { write_index = 10 }

parse_http_request_stalls_example : parse_http_request junk 1000 partial request_new ≡ none
unfolding program
parse_http_request_stalls_example =
    parse_http_request_stalls junk 1000 partial request_new refl refl

-- blocks of just the size that was asked for
abbrev tight : ℕ → ℕ → List ℕ
tight i n = replicate n 0

parse_http_request_overflows_example : parse_http_request tight 1000 received request_new ≡ none
unfolding program
parse_http_request_overflows_example =
    parse_http_request_overflows tight 1000 received get (url_a ++ (32 ∷ http11))
      (fields_bytes fields (33 ∷ [])) received-IsBuffer content-received refl refl (omega arith)

-- The URL's block has a byte behind the text that malloc left there, before the NUL.
parsed_test :
    parse_http_request junk 4 received request_new
    ≡ some (
      1,
      record received { read_index = 28 },
      record {
        version = some (http11 ++ (202 ∷ 0 ∷ replicate 6 202));
        method = some (get ++ (200 ∷ 0 ∷ replicate 6 200));
        url = some (url_a ++ (201 ∷ 0 ∷ replicate 6 201));
        current_state = request_done;
        headers = record { key = host ++ (0 ∷ []); value = 120 ∷ 0 ∷ [] } ∷ [];
      },
    )
unfolding program
parsed_test = refl

abbrev of_version : List ℕ → Request
of_version version = record request_new { version = some version }

-- A request of version 1.0 without the header Connection compares through NULL.
old_version_test :
    close_connection
      (λ block text. pos 0)
      (of_version (72 ∷ 84 ∷ 84 ∷ 80 ∷ 47 ∷ 49 ∷ 46 ∷ 48 ∷ 0 ∷ []))
    ≡ none
unfolding program
old_version_test = refl

-- A header is found by the beginning of its key.
prefix_test :
    (elim (add_header request_new (host ++ (115 ∷ 0 ∷ [])) (120 ∷ 0 ∷ [])) [
      | none ↦ none
      | some r ↦ get_header r host
    ])
    ≡ some (some (120 ∷ 0 ∷ []))
unfolding program
prefix_test = refl

-- an answer to that request
abbrev ok_response : Response
ok_response = record {
  status_code = 200;
  status_message = some (79 ∷ 75 ∷ []);
  body = some (104 ∷ 105 ∷ []);
  response_headers = record { key = host; value = 120 ∷ [] } ∷ [];
  keep_connected = false;
}

abbrev zeros : ℕ → List ℕ
zeros n = replicate n 0

abbrev output : Buffer
output = record { bytes = 0 ∷ 0 ∷ []; read_index = 0; write_index = 0; total_size = 2 }

output-IsBuffer : IsBuffer output
output-IsBuffer = record { ordered = omega arith; bounded = omega arith; sized = refl }

response_encode_buffer-Appended_example :
    Appended output
      (response_bytes ok_response (104 ∷ 105 ∷ []))
      (response_encode_buffer zeros ok_response output)
unfolding program
response_encode_buffer-Appended_example =
    response_encode_buffer-Appended zeros ok_response (104 ∷ 105 ∷ []) output
      (λ n. length-replicate n 0) refl output-IsBuffer (omega arith)

decimal_test : decimal 1040 ≡ 49 ∷ 48 ∷ 52 ∷ 48 ∷ []
unfolding program
decimal_test = refl

-- A connection of the server at rest, over a dispatcher that does nothing.
abbrev idle_dispatcher : Dispatcher ℕ
idle_dispatcher = record { add = λ s c. s; del = λ s c. (false, s); update = λ s c. s }

abbrev system : System ℕ
system = record {
  dispatcher = idle_dispatcher;
  fuel = 2;
  grants = λ e. true;
  realloc = zeros;
  element = 900;
}

abbrev at_rest : Connection ℕ (Option Request)
at_rest = record {
  self = 70;
  event_loop = 60;
  loop = record {
    event_dispatcher_data = 0;
    channel_map = record { entries = 0 ∷ 5 ∷ []; nentries = 2 };
    is_handle_pending = false;
    pending_head = null;
    pending_tail = null;
    elements = λ e. record { type = 0; channel = null; next = null };
    channels = λ a. record {
      fd = 1;
      events = 2;
      read_callback = true;
      write_callback = true;
      callback_data = 70;
    };
    wakeups = 0;
  };
  channel = 5;
  input_buffer = output;
  output_buffer = output;
  request = some request_new;
  sent = [];
  is_shut = false;
}

abbrev server : Server
server = record {
  heap = junk;
  fuel = 4;
  strncmp = λ block text. pos 0;
  callback = some (λ r response. (r, ok_response));
  memory = zeros 65536;
}

abbrev message : Message
message = record { method = get; url = url_a; version = http11; fields = fields }

abbrev answer : List ℕ
answer = response_bytes ok_response (104 ∷ 105 ∷ [])
