-- ===== src/Http/Response.antt =====
-- httptest-geektime/lib/http_response.c: the response as bytes behind what the output buffer holds.
use cpp_example_code.Base.{
  ℕ, zero, suc, ◌+◌, ◌/◌, ◌%◌, ◌^◌, ◌≤◌, ◌<◌, ◌≡◌, refl, sym, ap, ◌∙◌, inl, inr, Bool, false,
  Option, none, some, List, [], ◌∷◌, ◌++◌, arith,
}
use mathlib.Core.List.{append_assoc, append-nil}
use mathlib.Core.Path.{subst}
use cpp_example_code.Base.Tests.{ltb, if◌then◌else◌, Bool-cases}
use cpp_example_code.Base.Lists.{length, take, length-append}
use cpp_example_code.Buffer.Ops.{
  Buffer, make_room, put_bytes, append, writeable_size, front_spare_size,
}
use cpp_example_code.Buffer.Room.{IsBuffer, content}
use cpp_example_code.Buffer.Append.{Appended, append-Appended}

-- `struct response_header`; a string is its bytes before the NUL.
pub record ResponseHeader : Type 0 where
  pub key : List ℕ
  pub value : List ℕ

-- `struct http_response`, with the headers that its array holds
pub record Response : Type 0 where
  pub status_code : ℕ
  pub status_message : Option (List ℕ)
  pub body : Option (List ℕ)
  pub response_headers : List ResponseHeader
  pub keep_connected : Bool

unfoldable pub response_new : Response
response_new = record {
  status_code = 0;
  status_message = none;
  body = none;
  response_headers = [];
  keep_connected = false;
}

-- the digits of a number, as printf's %d and %zd write them
unfoldable pub digits_before : ℕ → ℕ → List ℕ → List ℕ
digits_before zero n behind = behind
digits_before (suc fuel) n behind =
    let longer = digits_before fuel (n / 10) ((48 + n % 10) ∷ behind) in
    if ltb n 10 then (48 + n) ∷ behind else longer

abbrev pub decimal : ℕ → List ℕ
decimal n = digits_before 20 n []

-- what `snprintf(buf, sizeof buf, ...)` leaves in the 32 bytes of buf, less the NUL
abbrev pub printed : List ℕ → List ℕ
printed text = take 31 text

-- "HTTP/1.1 ", "\r\n", "Connection: close\r\n", "Content-Length: ", "Connection: Keep-Alive\r\n" and ": "
abbrev pub http11_text : List ℕ
http11_text = 72 ∷ 84 ∷ 84 ∷ 80 ∷ 47 ∷ 49 ∷ 46 ∷ 49 ∷ 32 ∷ []

abbrev pub crlf : List ℕ
crlf = 13 ∷ 10 ∷ []

abbrev pub close_header : List ℕ
close_header =
    67 ∷ 111 ∷ 110 ∷ 110 ∷ 101 ∷ 99 ∷ 116 ∷ 105 ∷ 111 ∷ 110 ∷ 58 ∷ 32 ∷ 99 ∷ 108 ∷ 111 ∷ 115 ∷ 101
    ∷ 13 ∷ 10 ∷ []

abbrev pub length_header : List ℕ
length_header =
    67 ∷ 111 ∷ 110 ∷ 116 ∷ 101 ∷ 110 ∷ 116 ∷ 45 ∷ 76 ∷ 101 ∷ 110 ∷ 103 ∷ 116 ∷ 104 ∷ 58 ∷ 32 ∷ []

abbrev pub keep_alive_header : List ℕ
keep_alive_header =
    67 ∷ 111 ∷ 110 ∷ 110 ∷ 101 ∷ 99 ∷ 116 ∷ 105 ∷ 111 ∷ 110 ∷ 58 ∷ 32 ∷ 75 ∷ 101 ∷ 101 ∷ 112 ∷ 45
    ∷ 65 ∷ 108 ∷ 105 ∷ 118 ∷ 101 ∷ 13 ∷ 10 ∷ []

abbrev pub colon_blank : List ℕ
colon_blank = 58 ∷ 32 ∷ []

-- the strings of the loop over the headers
unfoldable pub header_strings :
    List ResponseHeader → List (Option (List ℕ)) → List (Option (List ℕ))
header_strings [] behind = behind
header_strings (h ∷ headers) behind =
    some h.key ∷ some colon_blank ∷ some h.value ∷ some crlf ∷ header_strings headers behind

-- The strings that `http_response_encode_buffer` appends, in order; NULL is `none`. The length of a body
-- that is NULL is not defined.
unfoldable pub response_strings : Response → Option (List (Option (List ℕ)))
response_strings r =
    let ending = header_strings r.response_headers (some crlf ∷ r.body ∷ []) in
    let first = printed (http11_text ++ (decimal r.status_code ++ (32 ∷ []))) in
    if r.keep_connected
    then some (some first ∷ r.status_message ∷ some crlf ∷ some close_header ∷ ending)
    else elim r.body [
      | none ↦ none
      | some text ↦ some (
          some first
          ∷ r.status_message
          ∷ some crlf
          ∷ some (printed (length_header ++ (decimal (length text) ++ crlf)))
          ∷ some keep_alive_header
          ∷ ending)
    ]

-- `realloc` is the memory that realloc puts behind the old bytes, for the number of bytes asked for.
module _ (realloc : ℕ → List ℕ) where
  -- `buffer_append_string`
  unfoldable pub append_string : Buffer → Option (List ℕ) → Option Buffer
  append_string b none = some b
  append_string b (some text) = append (some (realloc (length text))) b text

  unfoldable pub append_strings : Buffer → List (Option (List ℕ)) → Option Buffer
  append_strings b [] = some b
  append_strings b (text ∷ strings) = elim (append_string b text) [
    | none ↦ none
    | some b' ↦ append_strings b' strings
  ]

  unfoldable pub response_encode_buffer : Response → Buffer → Option Buffer
  response_encode_buffer r b = elim (response_strings r) [
    | none ↦ none
    | some strings ↦ append_strings b strings
  ]

-- the strings one after the other
abbrev pub joined : List (Option (List ℕ)) → List ℕ
joined [] = []
joined (none ∷ strings) = joined strings
joined (some text ∷ strings) = text ++ joined strings

append_total :
    (b b' : Buffer) (text more : List ℕ)
    → append (some more) b text ≡ some b'
    → b'.total_size ≤ b.total_size + length text
unfolding append make_room put_bytes writeable_size front_spare_size
append_total b b' text more e = ground arith

module _ (realloc : ℕ → List ℕ) (sized : (n : ℕ) → length (realloc n) ≡ n) where
  append_strings-Appended :
      (b : Buffer) (strings : List (Option (List ℕ)))
      → IsBuffer b
      → b.total_size + length (joined strings) < 2 ^ 31
      → Appended b (joined strings) (append_strings realloc b strings)
  unfolding append_strings append_string
  append_strings-Appended b [] v small = record {
    after = b;
    returns = refl;
    valid = v;
    extends = sym (append-nil (content b));
  }
  append_strings-Appended b (none ∷ strings) v small = append_strings-Appended b strings v small
  append_strings-Appended b (some text ∷ strings) v small =
      let total = length-append text (joined strings) in
      let one =
        append-Appended b text (realloc (length text)) v (sized (length text)) (omega arith) in
      let bound = append_total b one.after text (realloc (length text)) one.returns in
      let rest = append_strings-Appended one.after strings one.valid (omega arith) in
      record {
        after = rest.after;
        returns = rw (one.returns, append_strings, append_string) rest.returns;
        valid = rest.valid;
        extends =
            rest.extends
            ∙ ap (λ t. t ++ joined strings) one.extends
            ∙ append_assoc (content b) text (joined strings);
      }

abbrev or_empty : Option (List ℕ) → List ℕ
or_empty none = []
or_empty (some text) = text

-- the lines of the headers
abbrev pub header_bytes : List ResponseHeader → List ℕ
header_bytes [] = []
header_bytes (h ∷ headers) = h.key ++ (colon_blank ++ (h.value ++ (crlf ++ header_bytes headers)))

-- A response with the body `text`, as its bytes: the status line, the connection's header with the
-- body's length where the connection is kept, the other headers, an empty line and the body.
abbrev pub response_bytes : Response → List ℕ → List ℕ
response_bytes r text =
    printed (http11_text ++ (decimal r.status_code ++ (32 ∷ [])))
    ++ (or_empty r.status_message
        ++ (crlf
            ++ ((if r.keep_connected
                  then close_header
                  else printed (length_header ++ (decimal (length text) ++ crlf))
                    ++ keep_alive_header)
                ++ (header_bytes r.response_headers ++ (crlf ++ text)))))

joined_cons :
    (o : Option (List ℕ)) (strings : List (Option (List ℕ)))
    → joined (o ∷ strings) ≡ or_empty o ++ joined strings
joined_cons none strings = refl
joined_cons (some text) strings = refl

joined-header_strings :
    (headers : List ResponseHeader) (behind : List (Option (List ℕ)))
    → joined (header_strings headers behind) ≡ header_bytes headers ++ joined behind
unfolding header_strings
joined-header_strings [] behind = refl
joined-header_strings (h ∷ headers) behind =
    ap (λ t. h.key ++ (colon_blank ++ (h.value ++ (crlf ++ t))))
      (joined-header_strings headers behind)
    ∙ sym (
        append_assoc h.key (colon_blank ++ (h.value ++ (crlf ++ header_bytes headers)))
          (joined behind)
        ∙ ap (λ t. h.key ++ (colon_blank ++ t))
            (append_assoc h.value (crlf ++ header_bytes headers) (joined behind)))

response_strings-joined :
    (r : Response) (text : List ℕ)
    → r.body ≡ some text
    → (strings : List (Option (List ℕ))) × (response_strings r ≡ some strings)
      × (joined strings ≡ response_bytes r text)
unfolding response_strings
response_strings-joined r text there =
    let ending = header_strings r.response_headers (some crlf ∷ r.body ∷ []) in
    let end : joined ending ≡ header_bytes r.response_headers ++ (crlf ++ text) =
      joined-header_strings r.response_headers (some crlf ∷ r.body ∷ [])
      ∙ ap (λ o. header_bytes r.response_headers ++ (crlf ++ joined (o ∷ []))) there
      ∙ ap (λ t. header_bytes r.response_headers ++ (crlf ++ t)) (append-nil text) in
    let first = printed (http11_text ++ (decimal r.status_code ++ (32 ∷ []))) in
    let count = printed (length_header ++ (decimal (length text) ++ crlf)) in
    let kept_strings : List (Option (List ℕ)) =
      some first ∷ r.status_message ∷ some crlf ∷ some close_header ∷ ending in
    let counted : Option (List ℕ) → Option (List (Option (List ℕ))) = λ body. elim body [
      | none ↦ none
      | some text ↦ some (
          some first
          ∷ r.status_message
          ∷ some crlf
          ∷ some (printed (length_header ++ (decimal (length text) ++ crlf)))
          ∷ some keep_alive_header
          ∷ ending)
    ] in
    elim (Bool-cases r.keep_connected) [
      | inl kept ↦ (
        some first ∷ r.status_message ∷ some crlf ∷ some close_header ∷ ending,
        ap (λ c. if c then some kept_strings else counted r.body) kept,
        ap (λ t. first ++ t)
              (joined_cons r.status_message (some crlf ∷ some close_header ∷ ending)
                ∙ ap (λ t. or_empty r.status_message ++ (crlf ++ (close_header ++ t))) end)
            ∙ ap
                (λ c.
                  first
                  ++ (or_empty r.status_message
                      ++ (crlf
                          ++ ((if c then close_header else count ++ keep_alive_header)
                              ++ (header_bytes r.response_headers ++ (crlf ++ text))))))
                (sym kept),
      )
      | inr closed ↦ (
        some first ∷ r.status_message ∷ some crlf ∷ some count ∷ some keep_alive_header ∷ ending,
        ap (λ c. if c then some kept_strings else counted r.body) closed ∙ ap counted there,
        ap (λ t. first ++ t)
              (joined_cons r.status_message
                  (some crlf ∷ some count ∷ some keep_alive_header ∷ ending)
                ∙ ap
                    (λ t.
                      or_empty r.status_message ++ (crlf ++ (count ++ (keep_alive_header ++ t))))
                    end
                ∙ ap (λ t. or_empty r.status_message ++ (crlf ++ t))
                    (sym (
                      append_assoc count keep_alive_header
                        (header_bytes r.response_headers ++ (crlf ++ text)))))
            ∙ ap
                (λ c.
                  first
                  ++ (or_empty r.status_message
                      ++ (crlf
                          ++ ((if c then close_header else count ++ keep_alive_header)
                              ++ (header_bytes r.response_headers ++ (crlf ++ text))))))
                (sym closed),
      )
    ]

-- `http_response_encode_buffer` of a response with a body puts the response's bytes behind the readable ones,
-- through every growth of the buffer, if memory is there and the size stays an int.
pub response_encode_buffer-Appended :
    (realloc : ℕ → List ℕ) (r : Response) (text : List ℕ) (b : Buffer)
    → ((n : ℕ) → length (realloc n) ≡ n)
    → r.body ≡ some text
    → IsBuffer b
    → b.total_size + length (response_bytes r text) < 2 ^ 31
    → Appended b (response_bytes r text) (response_encode_buffer realloc r b)
unfolding response_encode_buffer
response_encode_buffer-Appended realloc r text b sized there v small =
    let (strings, same, e) = response_strings-joined r text there in
    let out =
      append_strings-Appended realloc sized b strings v
        (subst (λ t. b.total_size + length t < 2 ^ 31) (sym e) small) in
    record {
      after = out.after;
      returns = rw (same, response_encode_buffer) out.returns;
      valid = out.valid;
      extends = out.extends ∙ ap (λ t. content b ++ t) e;
    }
