-- ===== src/Banker/Request.antt =====
-- A request, `main`'s choice 2: what is granted, and that a refusal gives everything back.
use cpp_example_code.Base.{
  ℕ, ◌<◌, ◌≡◌, refl, sym, ap, ◌∙◌, ◌⊎◌, inl, inr, Bool, true, false, Option, some, List,
}
use cpp_example_code.Base.Tests.{◌==◌, if◌then◌else◌, Bool-cases}
use cpp_example_code.Base.Int.{ℤ}
use cpp_example_code.Base.Loops.{assign_self}
use cpp_example_code.Banker.State.{Row, Bank, add, sub, int_mod}
use cpp_example_code.Banker.Loops.{update_cells, update_cells_lem}
use cpp_example_code.Banker.Ops.{
  ask, read_id, granted, take_request, try_allocate, return_back, is_safe, request_choice,
}
use cpp_example_code.Banker.Sequence.{SafeSequence, is_safe-Checked, resources, SafeSequence-same}
use cpp_example_code.Banker.Undo.{IsBank, SameHoldings, return_back-SameHoldings}
use cpp_example_code.Banker.Granted.{Allowed, too_much, granted_upto-all, granted_upto-some}

-- What an approved request leaves: the process has what it asked for, the others keep what they
-- have, and all of them can finish.
pub record Approved (s : Bank) (id : ℕ) (typed : Row) (after : Bank) : Type 0 where
  pub flag : after.flag ≡ true
  pub safe : SafeSequence after after.safe
  pub allowed : (j : ℕ) → j < s.resource_num → Allowed s id typed j
  pub available : (j : ℕ) → j < s.resource_num → after.available j ≡ sub (s.available j) (typed j)
  pub allocate :
      (j : ℕ) → j < s.resource_num → after.allocate id j ≡ add (s.allocate id j) (typed j)
  pub need : (j : ℕ) → j < s.resource_num → after.need id j ≡ sub (s.need id j) (typed j)
  pub others :
      (i j : ℕ)
      → (i == id) ≡ false
      → (after.allocate i j ≡ s.allocate i j) × (after.need i j ≡ s.need i j)

-- Why a request is refused: it is too large, or the bank that it leads to is not found safe.
pub data Refusal (s : Bank) (id : ℕ) (typed : Row) : Type 0 where
  over : (j : ℕ) → j < s.resource_num → too_much s id typed j ≡ true → Refusal s id typed
  not_safe :
      (checked : Bank)
      → is_safe (take_request (ask id typed s)) ≡ some (false, checked)
      → Refusal s id typed

pub record Requested (s : Bank) (id : ℕ) (typed : Row) (out : Option Bank) : Type 0 where
  pub after : Bank
  pub returns : out ≡ some after
  pub outcome : Approved s id typed after ⊎ (Refusal s id typed × SameHoldings after s)

module _ (s : Bank) (id : ℕ) (typed : Row) where
  asked : (j : ℕ) → j < s.resource_num → (ask id typed s).request j ≡ typed j
  asked j h = update_cells_lem s.resource_num (λ j _. typed j) s.request j h

  asked-Allowed :
      (j : ℕ)
      → j < s.resource_num
      → Allowed (ask id typed s) id (ask id typed s).request j
      → Allowed s id typed j
  asked-Allowed j h a = record {
    needed = rw (asked j h) at a.needed;
    there = rw (asked j h) at a.there;
  }

  over_limit :
      granted (ask id typed s) ≡ false
      → (j : ℕ) × (j < s.resource_num) × (too_much s id typed j ≡ true)
  unfolding granted
  over_limit denied =
      let (j, inside, much) = granted_upto-some s.resource_num (ask id typed s) denied in
      (j, inside, rw (asked j inside) at much)

  abbrev taken : Bank
  taken = take_request (ask id typed s)

  approved :
      (checked : Bank)
      → granted (ask id typed s) ≡ true
      → SafeSequence taken checked.safe
      → resources checked ≡ resources taken
      → Approved s id typed (record checked { flag = true })
  unfolding granted take_request
  approved checked all safe e =
      let after : Bank = record checked { flag = true } in
      record {
        flag = refl;
        safe =
            SafeSequence-same taken after checked.safe (ap (λ t. (t.0, t.1, t.3, t.5, t.6)) (sym e))
              safe;
        allowed =
            λ j h. asked-Allowed j h (granted_upto-all s.resource_num (ask id typed s) all j h);
        available = λ j h.
            ap (λ t. t.3 j) e
            ∙ update_cells_lem s.resource_num (λ j a. sub a ((ask id typed s).request j))
                s.available j h
            ∙ ap (sub (s.available j)) (asked j h);
        allocate = λ j h.
            ap (λ t. t.6 id j) e
            ∙ ap (λ row. row j)
                (assign_self s.allocate id (
                  update_cells s.resource_num (λ j a. add a ((ask id typed s).request j))
                    (s.allocate id)))
            ∙ update_cells_lem s.resource_num (λ j a. add a ((ask id typed s).request j))
                (s.allocate id) j h
            ∙ ap (add (s.allocate id j)) (asked j h);
        need = λ j h.
            ap (λ t. t.5 id j) e
            ∙ ap (λ row. row j)
                (assign_self s.need id (
                  update_cells s.resource_num (λ j a. sub a ((ask id typed s).request j))
                    (s.need id)))
            ∙ update_cells_lem s.resource_num (λ j a. sub a ((ask id typed s).request j))
                (s.need id) j h
            ∙ ap (sub (s.need id j)) (asked j h);
        others =
            λ i j other. (ap (λ t. t.6 i j) e ∙ rw other refl, ap (λ t. t.5 i j) e ∙ rw other refl);
      }

  refused :
      IsBank s
      → ((j : ℕ) → typed j < int_mod)
      → (v : Bank) → resources v ≡ resources taken
      → SameHoldings (return_back v) s
  refused b words v e =
      let r =
        return_back-SameHoldings (ask id typed s) v
          (record { available = b.available; need = b.need; allocate = b.allocate })
          (λ j h. rw (asked j h) (words j)) e in
      record {
        progress_num = r.progress_num;
        resource_num = r.resource_num;
        max = r.max;
        available = r.available;
        need = r.need;
        allocate = r.allocate;
      }

  request_choice_refused :
      (ids : List ℤ)
      → read_id s.progress_num ids ≡ some id
      → granted (ask id typed s) ≡ false
      → request_choice ids typed s ≡ some (return_back taken)
  unfolding request_choice try_allocate
  request_choice_refused ids chosen denied = rw (chosen, request_choice, denied) refl

  request_choice-granted :
      (ids : List ℤ) (answer : Bool) (checked : Bank)
      → read_id s.progress_num ids ≡ some id
      → granted (ask id typed s) ≡ true
      → is_safe taken ≡ some (answer, checked)
      → request_choice ids typed s
        ≡ some (
            if answer
            then record checked { flag = true }
            else return_back (record checked { flag = false }))
  unfolding request_choice try_allocate
  request_choice-granted ids true checked chosen allowed safe =
      rw (chosen, request_choice, allowed, safe) refl
  request_choice-granted ids false checked chosen allowed safe =
      rw (chosen, request_choice, allowed, safe) refl

  -- With a process in range and numbers that fit an int, a request ends in one of two ways. It is
  -- approved, within what the process needs and what is there, and then the process has it, nobody
  -- else changes, and a safe sequence is in `safe`. Or it is too large or leads to a bank that the
  -- check calls unsafe, and then everything is as it was before.
  pub request_choice-Requested :
      (ids : List ℤ)
      → IsBank s
      → ((j : ℕ) → typed j < int_mod)
      → read_id s.progress_num ids ≡ some id
      → Requested s id typed (request_choice ids typed s)
  request_choice-Requested ids b words chosen = elim (Bool-cases (granted (ask id typed s))) [
    | inr denied ↦
        let (j, inside, much) = over_limit denied in
        record {
          after = return_back taken;
          returns = request_choice_refused ids chosen denied;
          outcome = inr (Refusal.over j inside much, refused b words taken refl);
        }
    | inl allowed ↦
        let c = is_safe-Checked taken in
        elim (Bool-cases c.answer) [
          | inl good ↦ record {
            after = record c.after { flag = true };
            returns =
                request_choice-granted ids c.answer c.after chosen allowed c.returns ∙ rw good refl;
            outcome = inl (approved c.after allowed (c.sound good) c.same);
          }
          | inr bad ↦ record {
            after = return_back (record c.after { flag = false });
            returns =
                request_choice-granted ids c.answer c.after chosen allowed c.returns ∙ rw bad refl;
            outcome = inr (
              Refusal.not_safe c.after (rw bad at c.returns),
              refused b words (record c.after { flag = false }) c.same,
            );
          }
        ]
  ]
