-- ===== src/Http/StatusLine.antt =====
-- The status line of a request, and the blocks for its three texts.
use cpp_example_code.Base.{
  ℕ, suc, ◌+◌, ◌≤◌, ◌<◌, ◌≡◌, refl, ap, ◌∙◌, inl, inr, true, false, none, some, List, ◌∷◌, ◌++◌,
  arith,
}
use cpp_example_code.Base.Tests.{ltb, Option-cases}
use cpp_example_code.Base.Lists.{take-length, length, set, take, drop}
use cpp_example_code.Base.Occurs.{occurs}
use cpp_example_code.Http.Request.{
  Request, find_byte, stored_text, status_texts, process_status_line,
}
use cpp_example_code.Http.Scan.{drop-behind, find_byte-append, copied_text}
use cpp_example_code.Http.Lines.{IsPlain}

-- the status line of a request, from its parts
abbrev pub status_line : List ℕ → List ℕ → List ℕ → List ℕ
status_line method url version = method ++ (32 ∷ (url ++ (32 ∷ version)))

-- the block for a text in the memory that malloc gave: the text, a byte that is as it was, and NUL
abbrev pub block : List ℕ → List ℕ → List ℕ
block text memory = text ++ set (drop (length text) memory) 1 0

stored_text_room :
    (text memory : List ℕ)
    → occurs 0 text ≡ 0
    → length text + 1 < length memory
    → stored_text text memory ≡ some (block text memory)
unfolding stored_text
stored_text_room text memory clean room =
    let inside : ltb (length text + 1) (length memory) ≡ true = ground arith in
    rw (inside, copied_text text clean) refl

module _ (heap : ℕ → ℕ → List ℕ) where
  -- What can be used of the `i`-th block for a text is more than what was asked for.
  abbrev pub IsRoomy : ℕ → List ℕ → Type 0
  IsRoomy i text = length text + 1 < length (heap i (length text + 1))

  -- the request that the status line leaves
  abbrev pub stated : List ℕ → List ℕ → List ℕ → Request → Request
  stated method url version r = record r {
    method = some (block method (heap 0 (length method + 1)));
    url = some (block url (heap 1 (length url + 1)));
    version = some (block version (heap 2 (length version + 1)));
  }

  status_texts-stated :
      (method url version : List ℕ) (r : Request)
      → IsPlain method
      → IsPlain url
      → IsPlain version
      → IsRoomy 0 method
      → IsRoomy 1 url
      → IsRoomy 2 version
      → status_texts heap method url version r ≡ some (stated method url version r)
  unfolding status_texts
  status_texts-stated method url version r m u w rm ru rv =
      rw
        (
          stored_text_room method (heap 0 (length method + 1)) m.no_nul rm,
          stored_text_room url (heap 1 (length url + 1)) u.no_nul ru,
          stored_text_room version (heap 2 (length version + 1)) w.no_nul rv,
          status_texts,
        )
        refl

  pub status_line_read :
      (method url version : List ℕ) (r : Request)
      → occurs 32 method ≡ 0
      → occurs 32 url ≡ 0
      → IsPlain method
      → IsPlain url
      → IsPlain version
      → IsRoomy 0 method
      → IsRoomy 1 url
      → IsRoomy 2 version
      → process_status_line heap (status_line method url version) r
        ≡ some (stated method url version r)
  unfolding process_status_line
  status_line_read method url version r one_word one_url m u w rm ru rv =
      let tail = url ++ (32 ∷ version) in
      let line = status_line method url version in
      let first = find_byte-append 32 method tail one_word in
      let behind : drop (suc (length method)) line ≡ tail = drop-behind method 32 tail in
      let second : find_byte 32 (drop (suc (length method)) line) ≡ some (length url) =
        ap (find_byte 32) behind ∙ find_byte-append 32 url version one_url in
      let a : take (length method) line ≡ method = take-length method (32 ∷ tail) in
      let b : take (length url) (drop (suc (length method)) line) ≡ url =
        ap (take (length url)) behind ∙ take-length url (32 ∷ version) in
      let c : drop (suc (length url)) (drop (suc (length method)) line) ≡ version =
        ap (drop (suc (length url))) behind ∙ drop-behind url 32 version in
      rw (first, second, process_status_line)
        (ap
            (λ x.
              status_texts heap x (take (length url) (drop (suc (length method)) line))
                (drop (suc (length url)) (drop (suc (length method)) line)) r)
            a
          ∙ ap
              (λ y.
                status_texts heap method y
                  (drop (suc (length url)) (drop (suc (length method)) line)) r)
              b
          ∙ ap (λ z. status_texts heap method url z r) c
          ∙ status_texts-stated method url version r m u w rm ru rv)

  pub method_overflows :
      (method tail : List ℕ) (r : Request)
      → occurs 32 method ≡ 0
      → length (heap 0 (length method + 1)) ≤ length method + 1
      → process_status_line heap (method ++ (32 ∷ tail)) r ≡ none
  unfolding process_status_line status_texts stored_text
  method_overflows method tail r one_word tight =
      let line = method ++ (32 ∷ tail) in
      let first = find_byte-append 32 method tail one_word in
      let outside : ltb (length method + 1) (length (heap 0 (length method + 1))) ≡ false =
        ground arith in
      let a : take (length method) line ≡ method = take-length method (32 ∷ tail) in
      elim (Option-cases (find_byte 32 (drop (suc (length method)) line))) [
        | inl missing ↦ rw (first, missing, process_status_line) refl
        | inr (j, there) ↦
            rw (first, there, a, outside, process_status_line, status_texts, stored_text) refl
      ]
