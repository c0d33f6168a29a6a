-- ===== src/Hashtbl/Chain.antt =====
-- The walks along one chain: `find_entry`, the unlinking of `remove_key` and the write of a value,
-- each over the test that the code makes at an entry.
use cpp_example_code.Base.{Bool, Option, none, some, [], ◌∷◌}
use cpp_example_code.Base.Tests.{if◌then◌else◌}
use cpp_example_code.Hashtbl.State.{Ptr, Entry, Chain}

-- `while (entry != NULL) { if (...) break; entry = entry->next; }`
unfoldable pub find_first : (Entry → Bool) → Chain → Option Entry
find_first test [] = none
find_first test (e ∷ c) = if test e then some e else find_first test c

-- `*head = entry->next` at the entry where that walk stops
unfoldable pub unlink_first : (Entry → Bool) → Chain → Chain
unlink_first test [] = []
unlink_first test (e ∷ c) = if test e then c else e ∷ unlink_first test c

-- `entry->val = v` at that entry
unfoldable pub assign_first : (Entry → Bool) → Ptr → Chain → Chain
assign_first test v [] = []
assign_first test v (e ∷ c) = if test e then record e { val = v } ∷ c else e ∷ assign_first test v c
