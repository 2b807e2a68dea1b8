-- ===== src/Vnc/PointerTranslator.antt =====
-- lib/units/device/plugins/vnc/util/pointertranslator.js: pointer events become touches. The
-- positions, which are fractions of the screen there, are any values.
pub mod Touches
mod Tests
use mercury_farm.Base.{
  ℕ, ◌/◌, ◌%◌, Bool, true, false, not, ◌&&◌, Option, none, some, List, [], ◌∷◌, ◌++◌, ◌==◌,
  if◌then◌else◌,
}

pub record Pointer {ℓ} (P : Type ℓ) : Type ℓ where
  pub button_mask : ℕ
  pub x : P
  pub y : P

pub data Touch {ℓ} (P : Type ℓ) : Type ℓ where
  touchdown touchmove : ℕ → P → P → Touch P
  touchup : ℕ → Touch P
  touchcommit : Touch P

module _ {ℓ} {P : Type ℓ} where
  -- `buttonMask & 0xFE` on a byte, and `buttonMask & 1`
  abbrev pub is_secondary : Pointer P → Bool
  is_secondary e = not (e.button_mask % 256 / 2 == 0)

  abbrev pub is_pressed : Pointer P → Bool
  is_pressed e = e.button_mask % 2 == 1

  -- the touches for an event, given whether the button was down at the event before
  unfoldable pub touches : Bool → Bool → Pointer P → List (Touch P)
  touches false true e = touchdown 1 e.x e.y ∷ touchcommit ∷ []
  touches true false e = touchup 1 ∷ touchcommit ∷ []
  touches true true e = touchmove 1 e.x e.y ∷ touchcommit ∷ []
  touches false false e = []

  -- An event with no one before it counts as one after an event without the button.
  abbrev pub was_pressed : Option (Pointer P) → Bool
  was_pressed none = false
  was_pressed (some e) = is_pressed e

  -- `push`: the new `previousEvent`, and what is emitted
  unfoldable pub push : Option (Pointer P) → Pointer P → Option (Pointer P) × List (Touch P)
  push previous e =
      if is_secondary e
      then (previous, [])
      else (some e, touches (was_pressed previous) (is_pressed e) e)

  unfoldable pub run : Option (Pointer P) → List (Pointer P) → Option (Pointer P) × List (Touch P)
  run previous [] = (previous, [])
  run previous (e ∷ es) =
      let (next, out) = push previous e in let (last, rest) = run next es in (last, out ++ rest)
