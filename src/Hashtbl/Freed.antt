-- ===== src/Hashtbl/Freed.antt =====
-- What hashtbl.c and linked-hashtbl.c give back for an entry, said without their code.
use cpp_example_code.Base.{Bool, true, false, ◌&&◌, not, List, [], ◌∷◌, ◌++◌}
use cpp_example_code.Base.Tests.{◌==◌, if◌then◌else◌}
use cpp_example_code.Hashtbl.State.{Entry, Call, null, key_free, val_free, free_entry}

-- The calls free the key if `keys`, then the value if `vals`, and then the entry, each once.
pub data Freed (e : Entry) : Bool → Bool → List Call → Type 0 where
  only_entry : Freed e false false (free_entry e ∷ [])
  key_too : Freed e true false (key_free e.key ∷ free_entry e ∷ [])
  value_too : Freed e false true (val_free e.val ∷ free_entry e ∷ [])
  everything : Freed e true true (key_free e.key ∷ val_free e.val ∷ free_entry e ∷ [])

-- A removal frees a value that is not NULL.
abbrev pub FreedByRemoval : Bool → Bool → Entry → List Call → Type 0
FreedByRemoval keys vals e calls = Freed e keys (vals && not (e.val == null)) calls

-- the calls for several entries, one after the other
pub data FreedAll (keys vals : Bool) : List Entry → List Call → Type 0 where
  no_more : FreedAll keys vals [] []
  one_more :
      (e : Entry) (entries : List Entry) (first rest : List Call)
      → Freed e keys vals first
      → FreedAll keys vals entries rest
      → FreedAll keys vals (e ∷ entries) (first ++ rest)

pub calls-Freed :
    (keys vals : Bool) (e : Entry)
    → Freed e keys vals (
        (if keys then key_free e.key ∷ [] else [])
        ++ ((if vals then val_free e.val ∷ [] else []) ++ (free_entry e ∷ [])))
calls-Freed false false e = only_entry
calls-Freed true false e = key_too
calls-Freed false true e = value_too
calls-Freed true true e = everything
