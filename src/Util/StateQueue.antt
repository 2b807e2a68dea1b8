-- ===== src/Util/StateQueue.antt =====
-- lib/util/statequeue.js: states that are to be reached one after another; states are numbers.
pub mod Unique
mod Tests
use mercury_farm.Base.{
  ℕ, ◌==◌, Bool, true, false, Option, none, some, List, [], ◌∷◌, ◌++◌, if◌then◌else◌,
}

-- `next`
unfoldable pub next : List ℕ → Option ℕ × List ℕ
next [] = (none, [])
next (s ∷ queue) = (some s, queue)

unfoldable pub empty : List ℕ → Bool
empty [] = true
empty (s ∷ queue) = false

-- The loop of `push`: the queue cut behind the state, if it is there; else none.
unfoldable pub cut_after : ℕ → List ℕ → Option (List ℕ)
cut_after state [] = none
cut_after state (s ∷ queue) =
    let rest = cut_after state queue in
    if s == state then some (s ∷ []) else elim rest [ none ↦ none | some kept ↦ some (s ∷ kept) ]

abbrev pub pushed : ℕ → List ℕ → Option (List ℕ) → List ℕ
pushed state queue none = queue ++ state ∷ []
pushed state queue (some kept) = kept

unfoldable pub push : ℕ → List ℕ → List ℕ
push state queue = pushed state queue (cut_after state queue)
