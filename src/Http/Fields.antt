-- ===== src/Http/Fields.antt =====
-- The header fields of a request are read back, one line after the other.
use cpp_example_code.Base.{
  ℕ, zero, suc, ◌+◌, ◌≤◌, ◌<◌, ◌≡◌, refl, sym, ap, ◌∙◌, true, Option, some, List, [], ◌∷◌, ◌++◌,
  map, arith,
}
use mathlib.Core.List.{append_assoc, append-nil}
use cpp_example_code.Base.Tests.{ltb}
use cpp_example_code.Base.Lists.{take-length, length, take, drop, All, length-append}
use cpp_example_code.Base.Occurs.{occurs, occurs-append}
use cpp_example_code.Buffer.Ops.{Buffer}
use cpp_example_code.Buffer.Room.{IsBuffer, content}
use cpp_example_code.Http.Request.{
  header_room, Header, request_headers, request_done, Request, add_header, find_two, copied,
  advance, header_line, round_in, parse_round, parse_http_request,
}
use cpp_example_code.Http.Scan.{drop-past, find_two-append, copied_text}
use cpp_example_code.Http.Lines.{Field, fields_bytes, IsField, stored, Fronted, front_line}

abbrev with_header : Request → List ℕ → List ℕ → Request
with_header r key value = record r {
  headers = r.headers ++ (record { key = key; value = value } ∷ []);
}

-- a line that is a header field
field_line :
    (b : Buffer) (r : Request) (k v : List ℕ)
    → IsField (k, v)
    → length r.headers < header_room
    → header_line b r (k ++ (58 ∷ 32 ∷ v))
      ≡ some (
        advance b (length (k ++ (58 ∷ 32 ∷ v)) + 2),
        record r { headers = r.headers ++ (stored (k, v) ∷ []) },
      )
unfolding header_line add_header
field_line b r k v (key, no_colon, value) room =
    let line = k ++ (58 ∷ 32 ∷ v) in
    let front : copied (take (length k) line) ≡ k =
      ap copied (take-length k (58 ∷ 32 ∷ v)) ∙ copied_text k key.no_nul in
    let back : copied (drop (length k + 2) line) ≡ v =
      ap copied (drop-past k 2 (58 ∷ 32 ∷ v)) ∙ copied_text v value.no_nul in
    let free : ltb (length r.headers) header_room ≡ true = ground arith in
    rw (find_two-append 58 32 k v no_colon, free, header_line)
      (ap
          (λ x. some (
            advance b (length line + 2),
            with_header r (x ++ (0 ∷ [])) (copied (drop (length k + 2) line) ++ (0 ∷ [])),
          ))
          front
        ∙ ap
            (λ x. some (advance b (length line + 2), with_header r (k ++ (0 ∷ [])) (x ++ (0 ∷ []))))
            back)

-- a request in the state REQUEST_HEADERS with the headers given
abbrev pub reading : Request → List Header → Request
reading r headers = record r { current_state = request_headers; headers = headers }

abbrev pub finished : Request → List Header → Request
finished r headers = record r { current_state = request_done; headers = headers }

module _ (heap : ℕ → ℕ → List ℕ) where
  -- A run of the parser that comes to its end: it returns 1, with the request given, and has read
  -- everything before `rest`.
  pub record Parsed (r : Request) (rest : List ℕ) (out : Option (ℕ × Buffer × Request))
      : Type 0 where
    pub after : Buffer
    pub returns : out ≡ some (1, after, r)
    pub remains : content after ≡ rest
    pub valid : IsBuffer after

  -- a round for a line that is a header field
  field_round :
      (b : Buffer) (r : Request) (headers : List Header) (k v rest : List ℕ)
      → IsField (k, v)
      → length headers < header_room
      → Fronted b (k ++ (58 ∷ 32 ∷ v)) rest
      → parse_round heap b (reading r headers)
        ≡ some (
          advance b (length (k ++ (58 ∷ 32 ∷ v)) + 2),
          reading r (headers ++ (stored (k, v) ∷ [])),
        )
  unfolding parse_round round_in
  field_round b r headers k v rest plain room f =
      rw (f.found, f.text, parse_round, round_in) (field_line b (reading r headers) k v plain room)

  -- the round for the line that ends the header
  last_round :
      (b : Buffer) (r : Request) (headers : List Header) (rest : List ℕ)
      → Fronted b [] rest
      → parse_round heap b (reading r headers) ≡ some (advance b 2, finished r headers)
  unfolding parse_round round_in header_line find_two
  last_round b r headers rest f =
      rw (f.found, f.text, parse_round, round_in, header_line, find_two) refl

  pub fields-Parsed :
      (fuel : ℕ) (b : Buffer) (r : Request) (headers : List Header) (fields : List Field)
      (rest : List ℕ)
      → IsBuffer b
      → content b ≡ fields_bytes fields rest
      → All IsField fields
      → length headers + length fields ≤ header_room
      → length fields + 2 ≤ fuel
      → Parsed
          (finished r (headers ++ map stored fields))
          rest
          (parse_http_request heap fuel b (reading r headers))
  unfolding parse_http_request
  fields-Parsed zero b r headers fields rest v at plain few enough = absurd (omega arith)
  fields-Parsed (suc zero) b r headers fields rest v at plain few enough = absurd (omega arith)
  fields-Parsed (suc (suc fuel)) b r headers [] rest v at plain few enough =
      let f = front_line b [] rest v refl at in
      record {
        after = advance b 2;
        returns =
            rw (last_round b r headers rest f, parse_http_request)
              (ap (λ h. some (1, advance b 2, finished r h)) (sym (append-nil headers)));
        remains = f.behind;
        valid = f.valid;
      }
  fields-Parsed (suc (suc fuel)) b r headers ((k, v) ∷ fields) rest valid at (plain, others) few
        enough =
      let line = k ++ (58 ∷ 32 ∷ v) in
      let clean : occurs 13 line ≡ 0 =
        omega (arith, occurs-append 13 k (58 ∷ 32 ∷ v), plain.0.no_cr, plain.2.no_cr) in
      let f = front_line b line (fields_bytes fields rest) valid clean at in
      let next =
        fields-Parsed (suc fuel) (advance b (length line + 2)) r (headers ++ (stored (k, v) ∷ []))
          fields rest f.valid f.behind others
          (omega (arith, length-append headers (stored (k, v) ∷ []))) (omega arith) in
      record {
        after = next.after;
        returns =
            rw
              (
                field_round b r headers k v (fields_bytes fields rest) plain (omega arith) f,
                parse_http_request,
              )
              (next.returns
                ∙ ap (λ h. some (1, next.after, finished r h))
                    (append_assoc headers (stored (k, v) ∷ []) (map stored fields)));
        remains = next.remains;
        valid = next.valid;
      }
