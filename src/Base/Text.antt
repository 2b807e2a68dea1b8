-- ===== src/Base/Text.antt =====
-- Texts as keys: equality and association lists, for the objects and maps of the source.
use mathlib.Core.Path.{◌≡◌}
use mathlib.Core.Bool.{Bool, false, ◌||◌}
use mathlib.Core.Option.{Option, none, some}
use mathlib.Core.List.{List, [], ◌∷◌}
use native.Mathlib.Omega.{arith}
pub use Prim.Native.String.{String}
pub use text.Mathlib.Text.{◌==◌ as str_eq}
pub use text.Mathlib.TextEquality.{eq_iff}
pub use text.Mathlib.TextPositions.{eq_refl}
use mercury_farm.Base.Tests.{if◌then◌else◌}

abbrev pub mem_text : String → List String → Bool
mem_text k [] = false
mem_text k (j ∷ js) = str_eq j k || mem_text k js

-- The object with the fields `fields`, the one set last in front of the others of its name.
module _ {ℓ} {V : Type ℓ} where
  unfoldable pub field : List (String × V) → String → Option V
  field [] name = none
  field (pair ∷ fields) name = if str_eq pair.0 name then some pair.1 else field fields name

  abbrev pub set_field : List (String × V) → String → V → List (String × V)
  set_field fields name value = (name, value) ∷ fields

  unfoldable pub delete_field : List (String × V) → String → List (String × V)
  delete_field [] name = []
  delete_field (pair ∷ fields) name =
      let rest = delete_field fields name in if str_eq pair.0 name then rest else pair ∷ rest

  -- Deleting one field leaves the others as they are.
  pub field-delete_field :
      (fields : List (String × V)) (name other : String)
      → field (delete_field fields name) other
        ≡ (if str_eq name other then none else field fields other)
  unfolding field delete_field
  field-delete_field [] name other = ground arith
  field-delete_field (pair ∷ fields) name other = ground (
    arith,
    field-delete_field fields name other,
    eq_iff pair.0 name,
    eq_iff pair.0 other,
    eq_iff name other,
  )
