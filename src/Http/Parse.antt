-- ===== src/Http/Parse.antt =====
-- The parser reads back a request that has been written down.
use cpp_example_code.Base.{
  ℕ, zero, suc, ◌+◌, ◌≤◌, ◌≡◌, refl, false, none, some, List, [], ◌∷◌, ◌++◌, map, arith,
}
use cpp_example_code.Base.Tests.{◌==◌}
use cpp_example_code.Base.Lists.{length, All, length-append}
use cpp_example_code.Base.Occurs.{occurs, occurs-append}
use cpp_example_code.Buffer.Ops.{Buffer, find_crlf}
use cpp_example_code.Buffer.Room.{IsBuffer, content}
use cpp_example_code.Http.Request.{
  header_room, RequestState, request_status, request_headers, request_body, request_done, Request,
  is_done, request_new, advance, round_in, parse_round, parse_http_request,
}
use cpp_example_code.Http.Lines.{IsPlain, Field, fields_bytes, IsField, stored, front_line}
use cpp_example_code.Http.Fields.{Parsed, finished, fields-Parsed}
use cpp_example_code.Http.StatusLine.{
  IsRoomy, status_line, stated, status_line_read, method_overflows,
}

module _ (heap : ℕ → ℕ → List ℕ) where
  stalled :
      (s : RequestState) (b : Buffer) (r : Request)
      → find_crlf b ≡ none
      → round_in heap s b r ≡ some (b, r)
  unfolding round_in
  stalled request_status b r incomplete = rw (incomplete, round_in) refl
  stalled request_headers b r incomplete = rw (incomplete, round_in) refl
  stalled request_body b r incomplete = refl
  stalled request_done b r incomplete = refl

  -- `parse_http_request` on a new request reads a request back that is at the front of the readable bytes,
  -- whatever follows, and leaves what follows: plain texts, with no blank in the method and the URL
  -- and no colon in a key, at most as many fields as the array of headers has room for, and blocks in which more can
  -- be used than was asked for. A header's text ends with NUL; behind the method, the URL and the version stand the
  -- byte that the block had there and NUL. As many rounds as there are lines and one more are enough.
  pub parse_http_request-Parsed :
      (fuel : ℕ) (b : Buffer) (method url version : List ℕ) (fields : List Field) (rest : List ℕ)
      → IsBuffer b
      → content b ≡ status_line method url version ++ (13 ∷ 10 ∷ fields_bytes fields rest)
      → occurs 32 method ≡ 0
      → occurs 32 url ≡ 0
      → IsPlain method
      → IsPlain url
      → IsPlain version
      → IsRoomy heap 0 method
      → IsRoomy heap 1 url
      → IsRoomy heap 2 version
      → All IsField fields
      → length fields ≤ header_room
      → length fields + 3 ≤ fuel
      → Parsed heap
          (finished (stated heap method url version request_new) (map stored fields))
          rest
          (parse_http_request heap fuel b request_new)
  unfolding parse_http_request parse_round round_in request_new
  parse_http_request-Parsed zero b method url version fields rest v at p q m u w rm ru rv plain few
        enough =
      absurd (omega arith)
  parse_http_request-Parsed (suc fuel) b method url version fields rest v at p q m u w rm ru rv
        plain few enough =
      let line = status_line method url version in
      let clean : occurs 13 line ≡ 0 = omega (
        arith,
        occurs-append 13 method (32 ∷ (url ++ (32 ∷ version))),
        occurs-append 13 url (32 ∷ version),
        m.no_cr,
        u.no_cr,
        w.no_cr,
      ) in
      let f = front_line b line (fields_bytes fields rest) v clean at in
      let some_line : (length line == 0) ≡ false =
        ground (arith, length-append method (32 ∷ (url ++ (32 ∷ version)))) in
      let next =
        fields-Parsed heap fuel (advance b (length line + 2))
          (stated heap method url version request_new) [] fields rest f.valid f.behind plain
          (omega arith) (omega arith) in
      record {
        after = next.after;
        returns =
            rw
              (
                f.found,
                f.text,
                status_line_read heap method url version request_new p q m u w rm ru rv,
                some_line,
                parse_http_request,
                parse_round,
                round_in,
              )
              next.returns;
        remains = next.remains;
        valid = next.valid;
      }

  -- Where malloc has given no more than was asked for, the NUL behind the method is written outside its block:
  -- a request with a line end in the buffer is then never read, whatever the number of rounds.
  pub parse_http_request_overflows :
      (fuel : ℕ) (b : Buffer) (method tail rest : List ℕ)
      → IsBuffer b
      → content b ≡ (method ++ (32 ∷ tail)) ++ (13 ∷ 10 ∷ rest)
      → occurs 32 method ≡ 0
      → occurs 13 (method ++ (32 ∷ tail)) ≡ 0
      → length (heap 0 (length method + 1)) ≤ length method + 1
      → parse_http_request heap fuel b request_new ≡ none
  unfolding parse_http_request parse_round round_in request_new
  parse_http_request_overflows zero b method tail rest v at one_word clean tight = refl
  parse_http_request_overflows (suc fuel) b method tail rest v at one_word clean tight =
      let f = front_line b (method ++ (32 ∷ tail)) rest v clean at in
      rw
        (
          f.found,
          f.text,
          method_overflows heap method tail request_new one_word tight,
          parse_http_request,
          parse_round,
          round_in,
        )
        refl

  -- With an incomplete line the loop has nothing to do and goes on: whatever the number of rounds, it does
  -- not come to its end.
  pub parse_http_request_stalls :
      (fuel : ℕ) (b : Buffer) (r : Request)
      → find_crlf b ≡ none
      → is_done r.current_state ≡ false
      → parse_http_request heap fuel b r ≡ none
  unfolding parse_http_request parse_round
  parse_http_request_stalls zero b r incomplete going = refl
  parse_http_request_stalls (suc fuel) b r incomplete going =
      let same = stalled r.current_state b r incomplete in
      rw (going, same, parse_http_request) (parse_http_request_stalls fuel b r incomplete going)
