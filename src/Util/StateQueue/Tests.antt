-- ===== src/Util/StateQueue/Tests.antt =====
-- A state that waits already cuts the queue behind it.
use mercury_farm.Base.{◌≡◌, refl, [], ◌∷◌}
use mercury_farm.Util.StateQueue.{push, cut_after}

cut_back : push 2 (1 ∷ 2 ∷ 3 ∷ []) ≡ 1 ∷ 2 ∷ []
unfolding push cut_after
cut_back = refl
