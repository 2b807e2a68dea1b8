-- ===== src/Wire/MessageStream/Tests.antt =====
-- Runs of the two streams, and the round trip at a concrete stream.
use mathlib.Core.List.{flatten}
use mercury_farm.Base.{ℕ, ◌≡◌, refl, [], ◌∷◌, List, arith}
use mercury_farm.Base.Int.{shl32, ◌+ℤ◌}
use mercury_farm.Wire.MessageStream.{
  empty, run, transform, turns, turn, turn_of, follow, read_length, delimit, length_bytes,
}
use mercury_farm.Wire.MessageStream.Expects.{wire}
use mercury_farm.Wire.MessageStream.RoundTrip.{run-wire}

delimit_short : delimit (7 ∷ 8 ∷ []) ≡ 2 ∷ 7 ∷ 8 ∷ []
unfolding delimit length_bytes
delimit_short = refl

abbrev cuts : List (List ℕ)
cuts = (2 ∷ 7 ∷ []) ∷ (8 ∷ 0 ∷ 1 ∷ []) ∷ (9 ∷ []) ∷ []

-- the empty message between the two is lost
cuts_read : (run empty cuts).1 ≡ (7 ∷ 8 ∷ []) ∷ (9 ∷ []) ∷ []
unfolding run transform turns turn turn_of follow read_length shl32 ◌+ℤ◌
cuts_read = refl

run-wire_example : (run empty cuts).1 ≡ (7 ∷ 8 ∷ []) ∷ (9 ∷ []) ∷ []
unfolding wire delimit length_bytes flatten
run-wire_example = run-wire ((7 ∷ 8 ∷ []) ∷ [] ∷ (9 ∷ []) ∷ []) cuts (omega arith) refl
