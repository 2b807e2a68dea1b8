-- ===== src/Screen/BroadcastSet.antt =====
-- lib/units/device/plugins/screen/util/broadcastset.js: who watches a screen. The set's fields are a
-- list in the order of insertion, and emitted events are listed.
pub mod Switching
mod Tests
use mercury_farm.Base.{
  ℕ, ◌+◌, ◌-◌, Bool, true, false, Option, none, some, List, [], ◌∷◌, ◌++◌, ◌==◌, if◌then◌else◌,
  is_some,
}
use mercury_farm.Base.Text.{String, str_eq, field, delete_field}

pub data Event : Type 0 where
  inserts removes : String → Event
  nonempty empty : Event

pub record BroadcastSet {ℓ} (W : Type ℓ) : Type ℓ where
  pub set : List (String × W)
  pub count : ℕ
  pub events : List Event

pub data Call {ℓ} (W : Type ℓ) : Type ℓ where
  inserting : String → W → Call W
  removing : String → Call W

module _ {ℓ} {W : Type ℓ} where
  unfoldable pub new : BroadcastSet W
  new = record { set = []; count = 0; events = [] }

  -- `id in this.set`
  abbrev pub has : String → BroadcastSet W → Bool
  has id s = is_some (field s.set id)

  unfoldable pub insert : String → W → BroadcastSet W → BroadcastSet W
  insert id ws s = if has id s then s else record s {
    set = s.set ++ (id, ws) ∷ [];
    count = s.count + 1;
    events = s.events ++ inserts id ∷ (if s.count + 1 == 1 then nonempty ∷ [] else []);
  }

  unfoldable pub remove : String → BroadcastSet W → BroadcastSet W
  remove id s =
      if has id s
      then record s {
        set = delete_field s.set id;
        count = s.count - 1;
        events = s.events ++ removes id ∷ (if s.count - 1 == 0 then empty ∷ [] else []);
      }
      else s

  unfoldable pub values : List (String × W) → List W
  values [] = []
  values ((id, ws) ∷ set) = ws ∷ values set

  unfoldable pub keys : List (String × W) → List String
  keys [] = []
  keys ((id, ws) ∷ set) = id ∷ keys set

  unfoldable pub get : String → BroadcastSet W → Option W
  get id s = field s.set id

  unfoldable pub run : List (Call W) → BroadcastSet W → BroadcastSet W
  run [] s = s
  run (inserting id ws ∷ calls) s = run calls (insert id ws s)
  run (removing id ∷ calls) s = run calls (remove id s)
