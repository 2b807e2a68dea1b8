-- ===== src/Util/FailCounter/Tests.antt =====
-- A counter of two failures in ten milliseconds.
use mercury_farm.Base.{ℕ, ◌≡◌, refl, true, false, List, [], ◌∷◌}
use mercury_farm.Util.FailCounter.{new, expire, inc, run}

abbrev times : List ℕ
times = 1 ∷ 5 ∷ 9 ∷ 12 ∷ 30 ∷ []

emitted : (run times (new 2 10)).1 ≡ false ∷ false ∷ true ∷ true ∷ false ∷ []
unfolding run new inc expire
emitted = refl
