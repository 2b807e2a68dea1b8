-- ===== src/Vnc/PointerTranslator/Tests.antt =====
-- A press that moves and ends, with a click of another button in between.
use mercury_farm.Base.{ℕ, ◌≡◌, refl, none, some, List, [], ◌∷◌}
use mercury_farm.Vnc.PointerTranslator.{
  Pointer, touchdown, touchmove, touchup, touchcommit, touches, push, run, was_pressed,
}
use mercury_farm.Vnc.PointerTranslator.Touches.{play, contact, run-play}

abbrev drag : List (Pointer ℕ)
drag =
    record { button_mask = 1; x = 5; y = 6 }
    ∷ record { button_mask = 3; x = 7; y = 6 }
    ∷ record { button_mask = 1; x = 8; y = 6 }
    ∷ record { button_mask = 0; x = 8; y = 6 }
    ∷ []

drag_touches :
    (run none drag).1
    ≡ touchdown 1 5 6 ∷ touchcommit ∷ touchmove 1 8 6 ∷ touchcommit ∷ touchup 1 ∷ touchcommit ∷ []
unfolding run push touches
drag_touches = refl

run-play_example :
    play (some (contact (was_pressed {P = ℕ} none))) (run none drag).1
    ≡ some (contact (was_pressed (run none drag).0))
run-play_example = run-play none drag
