-- ===== src/Http/Served.antt =====
-- A request is answered: parsed, given to the user's callback, encoded and sent.
use cpp_example_code.Base.{
  ℕ, ◌+◌, ◌^◌, ◌≤◌, ◌<◌, ◌≡◌, refl, sym, ap, ◌∙◌, ◌⊎◌, inl, inr, Bool, true, false, ◌||◌, Option,
  some, List, ◌∷◌, ◌++◌, map, arith,
}
use mathlib.Core.Path.{subst}
use cpp_example_code.Base.Tests.{if◌then◌else◌}
use cpp_example_code.Base.Lists.{length, All}
use cpp_example_code.Base.Int.{ℤ, pos}
use cpp_example_code.Base.Occurs.{occurs}
use cpp_example_code.Buffer.Ops.{Buffer, new, cells, init_buffer_size}
use cpp_example_code.Buffer.Room.{IsBuffer, content}
use cpp_example_code.Connection.Ops.{Connection, System, shutdown}
use cpp_example_code.Connection.Open.{stream, IsOpen, IsWired}
use cpp_example_code.Connection.Sent.{IsAble}
use cpp_example_code.Connection.Handed.{send_buffer-Handed}
use cpp_example_code.Http.Request.{
  header_room, Request, request_new, request_reset, close_connection,
}
use cpp_example_code.Http.Lines.{IsPlain, Field, fields_bytes, IsField, stored}
use cpp_example_code.Http.Fields.{finished}
use cpp_example_code.Http.StatusLine.{IsRoomy, status_line, stated}
use cpp_example_code.Http.Parse.{parse_http_request-Parsed}
use cpp_example_code.Http.Response.{Response, response_bytes, response_encode_buffer-Appended}
use cpp_example_code.Http.Server.{Server, call_request, respond, on_message}

module _ {S : Type 0} where
  -- What an answer promises: the connection is open still, its bytes go on with those given, the request is a new
  -- one, and the connection is shut if that was asked for.
  pub record Served (c : Connection S (Option Request)) (bytes : List ℕ) (closes : Bool)
      (out : Option (Connection S (Option Request))) : Type 0 where
    pub after : Connection S (Option Request)
    pub returns : out ≡ some after
    pub streams : stream after ≡ stream c ++ bytes
    pub opened : IsOpen after
    pub input : after.input_buffer ≡ c.input_buffer
    pub request : after.request ≡ some request_new
    pub shut : after.is_shut ≡ (closes || c.is_shut)

  module _ (sys : System S) (server : Server) (able : IsAble sys) where
    shut_if :
        (closes : Bool) (c : Connection S (Option Request)) (r : Request)
        → record (if closes then shutdown sys c else c) { request = some (request_reset r) }
          ≡ record c { request = some request_new; is_shut = closes || c.is_shut }
    unfolding shutdown request_reset request_new
    shut_if true c r = refl
    shut_if false c r = refl

    respond-Served :
        (c : Connection S (Option Request)) (r : Request) (text : List ℕ) (closes : Bool) (k : ℕ)
        → IsOpen c
        → length server.memory ≡ init_buffer_size
        → let (r', response) = call_request server.callback r in
          let bytes = response_bytes response text in
          response.body ≡ some text
          → close_connection server.strncmp r' ≡ some closes
          → k ≤ length bytes
          → (k ≡ length bytes) ⊎ IsWired c
          → c.output_buffer.total_size + length bytes < 2 ^ 31
          → init_buffer_size + length bytes < 2 ^ 31
          → Served c bytes closes (respond sys server (pos k) r c)
    unfolding respond new cells
    respond-Served c r text closes k o sized body decided le finishes small fits =
        let (r', response) = call_request server.callback r in
        let bytes = response_bytes response text in
        let fresh : Buffer = record {
          bytes = server.memory;
          read_index = 0;
          write_index = 0;
          total_size = init_buffer_size;
        } in
        let v : IsBuffer fresh = record {
          ordered = omega arith;
          bounded = omega arith;
          sized = sized;
        } in
        let encoded =
          response_encode_buffer-Appended sys.realloc response text fresh able.realloc body v
            fits in
        let handed =
          send_buffer-Handed sys encoded.after c k able encoded.valid o (rw (encoded.extends) le)
            (elim finishes [ inl all ↦ inl (rw (encoded.extends) all) | inr wired ↦ inr wired ])
            (rw (encoded.extends) small) in
        record {
          after = record handed.after {
            request = some request_new;
            is_shut = closes || handed.after.is_shut;
          };
          returns =
              rw (encoded.returns, handed.returns, decided, respond, new)
                (ap some (shut_if closes handed.after r'));
          streams = handed.streams ∙ ap (λ t. stream c ++ t) encoded.extends;
          opened = record {
            output = handed.opened.output;
            ready = handed.opened.ready;
            waits = handed.opened.waits;
          };
          input = ap (λ t. t.3) handed.same;
          request = refl;
          shut = ap (λ t. closes || t.5) handed.same;
        }

-- a request in its parts
pub record Message : Type 0 where
  pub method : List ℕ
  pub url : List ℕ
  pub version : List ℕ
  pub fields : List Field

abbrev pub message_bytes : Message → List ℕ → List ℕ
message_bytes m rest =
    status_line m.method m.url m.version ++ (13 ∷ 10 ∷ fields_bytes m.fields rest)

-- The parts are plain texts, with no blank in the method and the URL and no colon in a key, and the fields are no more
-- than the array of headers holds.
pub record IsMessage (m : Message) : Type 0 where
  pub one_word : occurs 32 m.method ≡ 0
  pub one_url : occurs 32 m.url ≡ 0
  pub method : IsPlain m.method
  pub url : IsPlain m.url
  pub version : IsPlain m.version
  pub fields : All IsField m.fields
  pub few : length m.fields ≤ header_room

-- More can be used of the blocks for the method, the URL and the version than is asked for.
pub record HasRoom (server : Server) (m : Message) : Type 0 where
  pub method : IsRoomy server.heap 0 m.method
  pub url : IsRoomy server.heap 1 m.url
  pub version : IsRoomy server.heap 2 m.version

-- the request as the parser stores it
abbrev pub read_from : Server → Message → Request
read_from server m =
    finished (stated server.heap m.method m.url m.version request_new) (map stored m.fields)

-- the user's answer to it, and the request as the user's callback leaves it
abbrev pub reply : Server → Message → Response
reply server m = (call_request server.callback (read_from server m)).1

abbrev pub request_after : Server → Message → Request
request_after server m = (call_request server.callback (read_from server m)).0

module _ {S : Type 0} where
  -- What the handling of a request promises: the answer's bytes go on with those given, what follows the request
  -- is still to be read, the request is a new one, and the connection is open still, and shut if that was
  -- asked for.
  pub record Answered (c : Connection S (Option Request)) (bytes rest : List ℕ) (closes : Bool)
      (out : Option (Connection S (Option Request))) : Type 0 where
    pub after : Connection S (Option Request)
    pub returns : out ≡ some after
    pub streams : stream after ≡ stream c ++ bytes
    pub opened : IsOpen after
    pub unread : content after.input_buffer ≡ rest
    pub valid : IsBuffer after.input_buffer
    pub request : after.request ≡ some request_new
    pub shut : after.is_shut ≡ (closes || c.is_shut)

  -- `http_onMessage`, with a whole request in the input buffer of an open connection: it ends, parses the
  -- request, gives it to the user's callback, and sends the bytes of the response, which has a body, behind
  -- those given before; it leaves what follows the request, is ready for the next one, and shuts the
  -- connection if http_request_close_connection says so. The first write takes `k` bytes: all of them, or the
  -- channel's data is the event loop; the sizes stay ints, more can be used of the blocks for the status line than
  -- is asked for, and the system and the fuel are enough.
  pub on_message-Answered :
      (sys : System S) (server : Server) (c : Connection S (Option Request)) (m : Message)
      (rest text : List ℕ) (closes : Bool) (refusal : ℤ) (k : ℕ)
      → IsAble sys
      → IsOpen c
      → IsBuffer c.input_buffer
      → IsMessage m
      → HasRoom server m
      → content c.input_buffer ≡ message_bytes m rest
      → c.request ≡ some request_new
      → length m.fields + 3 ≤ server.fuel
      → length server.memory ≡ init_buffer_size
      → (reply server m).body ≡ some text
      → close_connection server.strncmp (request_after server m) ≡ some closes
      → let bytes = response_bytes (reply server m) text in
        k ≤ length bytes
        → (k ≡ length bytes) ⊎ IsWired c
        → c.output_buffer.total_size + length bytes < 2 ^ 31
        → init_buffer_size + length bytes < 2 ^ 31
        → Answered c bytes rest closes (on_message sys server refusal (pos k) c)
  unfolding on_message
  on_message-Answered sys server c m rest text closes refusal k able o input w roomy at new_one
        enough sized body decided le finishes small fits =
      let p =
        parse_http_request-Parsed server.heap server.fuel c.input_buffer m.method m.url m.version
          m.fields rest input at w.one_word w.one_url w.method w.url w.version roomy.method
          roomy.url roomy.version w.fields w.few enough in
      let r = read_from server m in
      let c' = record c { input_buffer = p.after; request = some r } in
      let o' : IsOpen c' = record { output = o.output; ready = o.ready; waits = o.waits } in
      let s =
        respond-Served sys server able c' r text closes k o' sized body decided le finishes small
          fits in
      record {
        after = s.after;
        returns = rw (new_one, p.returns, on_message) s.returns;
        streams = s.streams;
        opened = s.opened;
        unread = ap content s.input ∙ p.remains;
        valid = subst IsBuffer (sym s.input) p.valid;
        request = s.request;
        shut = s.shut;
      }
