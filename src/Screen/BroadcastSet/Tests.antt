-- ===== src/Screen/BroadcastSet/Tests.antt =====
-- Runs of the set.
use mercury_farm.Base.{ℕ, ◌≡◌, refl, false, some, List, [], ◌∷◌, length, ltb}
use mercury_farm.Screen.BroadcastSet.{
  new, Call, inserting, removing, run, insert, remove, nonempty, empty, inserts, removes,
}
use mercury_farm.Screen.BroadcastSet.Switching.{switching, run-switching}
use mercury_farm.Base.Text.{field, delete_field}

abbrev calls : List (Call ℕ)
calls =
    inserting "ann" 1 ∷ inserting "bob" 2 ∷ inserting "ann" 3 ∷ removing "ann" ∷ removing "bob" ∷ []

all_events :
    (run calls new).events
    ≡ inserts "ann" ∷ nonempty ∷ inserts "bob" ∷ removes "ann" ∷ removes "bob" ∷ empty ∷ []
unfolding run new insert remove field delete_field
all_events = refl

run-switching_example :
    ((run calls new).count ≡ length (run calls new).set)
    × (switching (some false) (run calls new).events ≡ some (ltb 0 (length (run calls new).set)))
run-switching_example = run-switching calls
