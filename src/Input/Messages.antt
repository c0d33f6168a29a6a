-- ===== src/Input/Messages.antt =====
-- `read_message` reads back a message that has been written with its header.
use cpp_example_code.Base.{
  ℕ, ◌+◌, ◌*◌, ◌/◌, ◌%◌, ◌^◌, ◌≤◌, ◌<◌, ◌≡◌, refl, ap, ◌∙◌, inl, inr, true, false, Option, some,
  List, [], ◌∷◌, ◌++◌, arith,
}
use mathlib.Core.Path.{subst}
use cpp_example_code.Base.Tests.{ltb, leb, ◌==◌, if◌then◌else◌, Bool-cases, ==_refl}
use cpp_example_code.Base.Lists.{length, take, drop, take-length, drop-length}
use cpp_example_code.Base.Int.{ℤ, pos, negsuc}
use cpp_example_code.Input.Socket.{Socket, Delivers}
use cpp_example_code.Input.Ops.{Outcome, readn, read_body, read_message}
use cpp_example_code.Input.Readn.{readn-Filled}

-- `htonl`, as the four bytes of a number
abbrev pub htonl : ℕ → List ℕ
htonl n = n / 16777216 % 256 ∷ n / 65536 % 256 ∷ n / 256 % 256 ∷ n % 256 ∷ []

-- The number that the four bytes stand for.
htonl_whole :
    (n : ℕ)
    → n < 2 ^ 32
    → ((n / 16777216 % 256 * 256 + n / 65536 % 256) * 256 + n / 256 % 256) * 256 + n % 256 ≡ n
htonl_whole n small = omega arith

module _ {W : Type 0} (s : Socket W) (d : Delivers s) where
  -- What a read of all of `xs` does where these bytes are next.
  record Taken (w : W) (xs rest : List ℕ) (out : Option (Outcome s)) : Type 0 where
    after : W
    returns : out ≡ some (pos (length xs), xs, after)
    left : d.pending after ≡ rest
    calmer : d.interrupts after ≤ d.interrupts w

  readn-Taken :
      (fuel : ℕ) (w : W) (n : ℕ) (xs rest : List ℕ)
      → length xs ≡ n
      → n < 2 ^ 31
      → n + d.interrupts w < fuel
      → d.pending w ≡ xs ++ rest
      → Taken w xs rest (readn s fuel w n)
  readn-Taken fuel w n xs rest sized small enough at =
      let f = readn-Filled s d fuel w n small enough in
      let all : take n (d.pending w) ≡ xs =
        ap (take n) at ∙ subst (λ m. take m (xs ++ rest) ≡ xs) sized (take-length xs rest) in
      record {
        after = f.after;
        returns = f.returns ∙ ap (λ t. some (pos (length t), t, f.after)) all;
        left =
            f.left
            ∙ ap (drop n) at
            ∙ subst (λ m. drop m (xs ++ rest) ≡ rest) sized (drop-length xs rest);
        calmer = f.calmer;
      }

  -- A message that was read: what is returned and stored, and what is still to be read.
  pub record Framed (w : W) (result : ℤ) (body rest : List ℕ) (out : Option (Outcome s))
      : Type 0 where
    pub after : W
    pub returns : out ≡ some (result, body, after)
    pub left : d.pending after ≡ rest

  -- the header of a message and its body
  body-read :
      (fuel : ℕ) (w : W) (body rest : List ℕ) (size : ℕ)
      → length body ≤ size
      → length body < 2 ^ 31
      → length body + d.interrupts w < fuel
      → d.pending w ≡ body ++ rest
      → Framed w (pos (length body)) body rest (read_body s fuel w (length body) size)
  unfolding read_body
  body-read fuel w body rest size fits small enough at =
      let b = readn-Taken fuel w (length body) body rest refl small enough at in
      let room : ltb size (length body) ≡ false = ground arith in
      record {
        after = b.after;
        returns = rw (room, b.returns, ==_refl (length body), read_body) refl;
        left = b.left;
      }

  body-refused :
      (fuel : ℕ) (w : W) (n size : ℕ)
      → size < n
      → read_body s fuel w n size ≡ some (negsuc 0, [], w)
  unfolding read_body
  body-refused fuel w n size over =
      let no_room : ltb size n ≡ true = ground arith in rw (no_room, read_body) refl

  header-read :
      (fuel : ℕ) (w : W) (n : ℕ) (type rest : List ℕ) (size : ℕ)
      (first : Taken w (htonl n) (type ++ rest) (readn s fuel w 4))
      (second : Taken first.after type rest (readn s fuel first.after 4))
      → length type ≡ 4
      → n < 2 ^ 32
      → read_message s fuel w size ≡ read_body s fuel second.after n size
  unfolding read_message
  header-read fuel w n type rest size first second typed small =
      let four : (length type == 4) ≡ true = ground arith in
      rw (first.returns, second.returns, four, read_message)
        (ap (λ m. read_body s fuel second.after m size) (htonl_whole n small))

  -- `read_message` on a socket that delivers gives back the bytes of a message that was written as its length in
  -- four bytes of the network's order, its type in four, and its bytes, however they arrive, if they
  -- fit the buffer; what follows is still to be read. Of a message that does not fit it reads the header
  -- only, stores nothing and returns -1.
  pub read_message-Framed :
      (fuel : ℕ) (w : W) (type body rest : List ℕ) (size : ℕ)
      → length type ≡ 4
      → length body < 2 ^ 31
      → 4 + length body + d.interrupts w < fuel
      → d.pending w ≡ htonl (length body) ++ (type ++ (body ++ rest))
      → if leb (length body) size
        then Framed w (pos (length body)) body rest (read_message s fuel w size)
        else Framed w (negsuc 0) [] (body ++ rest) (read_message s fuel w size)
  read_message-Framed fuel w type body rest size typed small enough at =
      let n = length body in
      let first =
        readn-Taken fuel w 4 (htonl n) (type ++ (body ++ rest)) refl (omega arith) (omega arith)
          at in
      let second =
        readn-Taken fuel first.after 4 type (body ++ rest) typed (omega arith)
          (omega (arith, first.calmer)) first.left in
      let head = header-read fuel w n type (body ++ rest) size first second typed (omega arith) in
      elim (Bool-cases (leb n size)) [
        | inl fits ↦ rw fits (
            let b =
              body-read fuel second.after body rest size (ground arith) small
                (omega (arith, first.calmer, second.calmer)) second.left in
            record { after = b.after; returns = head ∙ b.returns; left = b.left })
        | inr over ↦ rw over (record {
          after = second.after;
          returns = head ∙ body-refused fuel second.after n size (ground arith);
          left = second.left;
        })
      ]
