-- ===== src/Input/Socket.antt =====
-- What the reads of httptest-geektime/lib/read.c use of a socket: read and recv, with and without MSG_PEEK.
use cpp_example_code.Base.{ℕ, suc, ◌≤◌, ◌<◌, ◌≡◌, ◌≢◌, Bool, true, false, List, [], ◌∷◌, ◌++◌}
use cpp_example_code.Base.Lists.{length}

-- What a call returns: the bytes, none at the end of the input, or a failure, with whether errno is EINTR.
pub data Answer : Type 0 where
  got : List ℕ → Answer
  failed : Bool → Answer

-- A descriptor's calls, over the state of the system; the number is the size asked for.
pub record Socket (W : Type 0) : Type 0 where
  pub read : W → ℕ → Answer × W
  pub peek : W → ℕ → Answer × W

-- A socket that delivers the bytes that it has: it gives some of them, in order and no more than asked for, or is
-- interrupted, finitely often; it ends only when it has none, and does not fail.
pub record Delivers {W : Type 0} (s : Socket W) : Type 0 where
  pub pending : W → List ℕ
  pub interrupts : W → ℕ
  pub gives :
      (w : W) (n x : ℕ) (xs : List ℕ)
      → (s.read w (suc n)).0 ≡ got (x ∷ xs)
      → (pending w ≡ (x ∷ xs) ++ pending (s.read w (suc n)).1)
        × (length xs ≤ n)
        × (interrupts (s.read w (suc n)).1 ≤ interrupts w)
  pub ends :
      (w : W) (n : ℕ)
      → (s.read w (suc n)).0 ≡ got []
      → (pending w ≡ [])
        × (pending (s.read w (suc n)).1 ≡ [])
        × (interrupts (s.read w (suc n)).1 ≤ interrupts w)
  pub breaks :
      (w : W) (n : ℕ)
      → (s.read w (suc n)).0 ≡ failed true
      → (pending (s.read w (suc n)).1 ≡ pending w)
        × (interrupts (s.read w (suc n)).1 < interrupts w)
  pub holds : (w : W) (n : ℕ) → (s.read w (suc n)).0 ≢ failed false

-- MSG_PEEK shows the next byte and takes nothing.
pub record Peeks {W : Type 0} (s : Socket W) (d : Delivers s) : Type 0 where
  pub shows : (w : W) (x : ℕ) (xs : List ℕ) → d.pending w ≡ x ∷ xs → (s.peek w 1).0 ≡ got (x ∷ [])
  pub keeps :
      (w : W)
      → (d.pending (s.peek w 1).1 ≡ d.pending w) × (d.interrupts (s.peek w 1).1 ≡ d.interrupts w)
