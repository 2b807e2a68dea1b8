-- ===== src/Vnc/PointerTranslator/Touches.antt =====
-- The touches that pointertranslator.js emits, played to a touch screen.
use mercury_farm.Base.{
  ◌≡◌, refl, ap, ◌∙◌, Bool, true, false, Option, none, some, List, [], ◌∷◌, ◌++◌, if-cases,
}
use mercury_farm.Vnc.PointerTranslator.{
  Pointer, Touch, touchdown, touchmove, touchup, touchcommit, is_secondary, is_pressed, touches,
  was_pressed, push, run,
}

-- A contact that is down or up, and whether a touch waits for its commit; none is a touch out of turn.
pub data Screen : Type 0 where
  up down : Screen
  pending : Screen → Screen

abbrev pub contact : Bool → Screen
contact true = down
contact false = up

module _ {P : Type 0} where
  abbrev pub touched : Option Screen → Touch P → Option Screen
  touched (some up) (touchdown c x y) = some (pending down)
  touched (some down) (touchmove c x y) = some (pending down)
  touched (some down) (touchup c) = some (pending up)
  touched (some (pending s)) touchcommit = some s
  touched _ _ = none

  abbrev pub play : Option Screen → List (Touch P) → Option Screen
  play o [] = o
  play o (t ∷ ts) = play (touched o t) ts

  play-append :
      (o : Option Screen) (ts us : List (Touch P)) → play o (ts ++ us) ≡ play (play o ts) us
  play-append o [] us = refl
  play-append o (t ∷ ts) us = play-append (touched o t) ts us

  play-touches :
      (was is : Bool) (e : Pointer P)
      → play (some (contact was)) (touches was is e) ≡ some (contact is)
  unfolding touches
  play-touches true true e = refl
  play-touches true false e = refl
  play-touches false true e = refl
  play-touches false false e = refl

  play-push :
      (previous : Option (Pointer P)) (e : Pointer P)
      → play (some (contact (was_pressed previous))) (push previous e).1
        ≡ some (contact (was_pressed (push previous e).0))
  unfolding push
  play-push previous e =
      if-cases
        (λ (r : Option (Pointer P) × List (Touch P)).
          play (some (contact (was_pressed previous))) r.1 ≡ some (contact (was_pressed r.0)))
        (is_secondary e) (λ _. refl) (λ _. play-touches (was_pressed previous) (is_pressed e) e)

  -- Whatever pointer events arrive: a contact goes down only when it is up, moves and goes up only
  -- when it is down, each touch is committed before the next one, and at the end the contact is
  -- down just if the button was at the last event that was not ignored.
  pub run-play :
      (previous : Option (Pointer P)) (es : List (Pointer P))
      → play (some (contact (was_pressed previous))) (run previous es).1
        ≡ some (contact (was_pressed (run previous es).0))
  unfolding run
  run-play previous [] = refl
  run-play previous (e ∷ es) =
      play-append (some (contact (was_pressed previous))) (push previous e).1
        (run (push previous e).0 es).1
      ∙ ap (λ o. play o (run (push previous e).0 es).1) (play-push previous e)
      ∙ run-play (push previous e).0 es
