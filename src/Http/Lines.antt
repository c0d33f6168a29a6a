-- ===== src/Http/Lines.antt =====
-- A request as lines of bytes, and a line at the front of a buffer.
use cpp_example_code.Base.{ℕ, ◌+◌, ◌-◌, ◌≡◌, sym, ap, ◌∙◌, some, List, [], ◌∷◌, ◌++◌, arith}
use cpp_example_code.Base.Lists.{take-length, length, take, drop, length-append}
use cpp_example_code.Base.Occurs.{occurs}
use cpp_example_code.Buffer.Ops.{Buffer, cells, find_pair, find_crlf, readable_size}
use cpp_example_code.Buffer.Bytes.{take-cells, drop-cells, length-cells}
use cpp_example_code.Buffer.Room.{IsBuffer, content}
use cpp_example_code.Http.Request.{Header, advance}
use cpp_example_code.Http.Scan.{drop-past, find_pair-append}

-- A text that no search and no copy stops in: without NUL and without CR.
pub record IsPlain (xs : List ℕ) : Type 0 where
  pub no_nul : occurs 0 xs ≡ 0
  pub no_cr : occurs 13 xs ≡ 0

-- a header field, as its key and its value, and its bytes before `rest`
abbrev pub Field : Type 0
Field = List ℕ × List ℕ

abbrev pub fields_bytes : List Field → List ℕ → List ℕ
fields_bytes [] rest = 13 ∷ 10 ∷ rest
fields_bytes ((k, v) ∷ fields) rest = (k ++ (58 ∷ 32 ∷ v)) ++ (13 ∷ 10 ∷ fields_bytes fields rest)

-- a key is plain and has no colon, and a value is plain
abbrev pub IsField : Field → Type 0
IsField (k, v) = IsPlain k × (occurs 58 k ≡ 0) × IsPlain v

abbrev pub stored : Field → Header
stored (k, v) = record { key = k ++ (0 ∷ []); value = v ++ (0 ∷ []) }

-- What stands where a line and its end are at the front of the readable bytes.
pub record Fronted (b : Buffer) (line rest : List ℕ) : Type 0 where
  pub found : find_crlf b ≡ some (length line)
  pub text : cells (length line) b.read_index b.bytes ≡ line
  pub behind : content (advance b (length line + 2)) ≡ rest
  pub valid : IsBuffer (advance b (length line + 2))

pub front_line :
    (b : Buffer) (line rest : List ℕ)
    → IsBuffer b
    → occurs 13 line ≡ 0
    → content b ≡ line ++ (13 ∷ 10 ∷ rest)
    → Fronted b line rest
unfolding find_crlf readable_size
front_line b line rest v clean at =
    let n = b.write_index - b.read_index in
    let size : n ≡ length line + (2 + length rest) =
      sym (length-cells n b.read_index b.bytes)
      ∙ ap length at
      ∙ omega (arith, length-append line (13 ∷ 10 ∷ rest)) in
    let m = length line + 2 in
    let fewer : b.write_index - (b.read_index + m) ≡ n - m = omega arith in
    record {
      found = ap find_pair at ∙ find_pair-append line rest clean;
      text =
          take-cells (length line) n b.read_index b.bytes (omega (arith, size))
          ∙ ap (take (length line)) at
          ∙ take-length line (13 ∷ 10 ∷ rest);
      behind =
          ap (λ t. cells t (b.read_index + m) b.bytes) fewer
          ∙ drop-cells m n b.read_index b.bytes (omega (arith, size))
          ∙ ap (drop m) at
          ∙ drop-past line 2 (13 ∷ 10 ∷ rest);
      valid = record {
        ordered = omega (arith, size, v.ordered);
        bounded = v.bounded;
        sized = v.sized;
      };
    }
