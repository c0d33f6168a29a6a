-- ===== src/Http/Server.antt =====
-- httptest-geektime/lib/http_server.c: the callbacks that it gives to a connection, whose `request` is the
-- HTTP request, NULL where it is `none`.
use cpp_example_code.Base.{ℕ, true, Option, none, some, List, [], ◌∷◌}
use cpp_example_code.Base.Tests.{◌==◌, if◌then◌else◌}
use cpp_example_code.Base.Lists.{take}
use cpp_example_code.Base.Int.{ℤ}
use cpp_example_code.Buffer.Ops.{new}
use cpp_example_code.Connection.Ops.{Connection, System, send_data, send_buffer, shutdown}
use cpp_example_code.Http.Request.{
  Request, is_done, request_new, request_reset, parse_http_request, close_connection,
}
use cpp_example_code.Http.Response.{Response, response_new, response_encode_buffer}

-- "HTTP/1.1 400 Bad Request\r\n\r\n"
abbrev error_response : List ℕ
error_response =
    72 ∷ 84 ∷ 84 ∷ 80 ∷ 47 ∷ 49 ∷ 46 ∷ 49 ∷ 32 ∷ 52 ∷ 48 ∷ 48 ∷ 32 ∷ 66 ∷ 97 ∷ 100 ∷ 32 ∷ 82 ∷ 101
    ∷ 113 ∷ 117 ∷ 101 ∷ 115 ∷ 116 ∷ 13 ∷ 10 ∷ 13 ∷ 10 ∷ []

-- `sizeof(error_response)`, the size of a pointer
abbrev error_size : ℕ
error_size = 8

module _ {S : Type 0} where
  -- `http_onConnectionCompleted`
  unfoldable pub on_connection_completed :
      Connection S (Option Request) → Option (Connection S (Option Request))
  on_connection_completed c = some (record c { request = some request_new })

  -- `http_onConnectionClosed`; the request's memory is freed
  unfoldable pub on_connection_closed :
      Connection S (Option Request) → Option (Connection S (Option Request))
  on_connection_closed c = some (record c { request = none })

  -- `http_onWriteCompleted`, which prints
  unfoldable pub on_write_completed :
      Connection S (Option Request) → Option (Connection S (Option Request))
  on_write_completed c = some c

-- The user's `requestCallback`, NULL where it is `none`.
abbrev pub RequestCallback : Type 0
RequestCallback = Option (Request → Response → Request × Response)

unfoldable pub call_request : RequestCallback → Request → Request × Response
call_request none r = (r, response_new)
call_request (some f) r = f r response_new

-- The memory of the parser's blocks, the parser's fuel, what strncmp answers, the user's callback, and the memory
-- of the response's buffer.
pub record Server : Type 0 where
  pub heap : ℕ → ℕ → List ℕ
  pub fuel : ℕ
  pub strncmp : List ℕ → List ℕ → ℤ
  pub callback : RequestCallback
  pub memory : List ℕ

module _ {S : Type 0} (sys : System S) (server : Server) where
  -- the answer to a bad request; `answer` is what write returns
  unfoldable pub refuse : ℤ → Connection S (Option Request) → Option (Connection S (Option Request))
  refuse answer c = elim (send_data sys answer none (take error_size error_response) c) [
    | none ↦ none
    | some (_, c') ↦ some (shutdown sys c')
  ]

  -- the answer to a request that has been read
  unfoldable pub respond :
      ℤ → Request → Connection S (Option Request) → Option (Connection S (Option Request))
  respond answer r c =
      let (r', response) = call_request server.callback r in
      elim (new true server.memory) [
        | none ↦ none
        | some b ↦ elim (response_encode_buffer sys.realloc response b) [
          | none ↦ none
          | some b' ↦ elim (send_buffer sys answer b' c) [
            | none ↦ none
            | some (_, _, c') ↦ elim (close_connection server.strncmp r') [
              | none ↦ none
              | some closes ↦
                  let c'' = if closes then shutdown sys c' else c' in
                  some (record c'' { request = some (request_reset r') })
            ]
          ]
        ]
      ]

  -- `http_onMessage`; `refusal` and `answer` are what the two calls of write return.
  unfoldable pub on_message :
      ℤ → ℤ → Connection S (Option Request) → Option (Connection S (Option Request))
  on_message refusal answer c = elim c.request [
    | none ↦ none
    | some r ↦ elim (parse_http_request server.heap server.fuel c.input_buffer r) [
      | none ↦ none
      | some (ok, b, r') ↦
          let c' = record c { input_buffer = b; request = some r' } in
          elim (if ok == 0 then refuse refusal c' else some c') [
            | none ↦ none
            | some c'' ↦ if is_done r'.current_state then respond answer r' c'' else some c''
          ]
    ]
  ]
