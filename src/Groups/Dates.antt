-- ===== src/Groups/Dates.antt =====
-- `computeGroupDates` of lib/util/apiutil.js: the windows of a group that is repeated.
use mercury_farm.Base.{
  ℕ, zero, suc, ◌+◌, ◌-◌, ◌*◌, ◌<◌, ◌≡◌, refl, ap, ◌∙◌, Option, none, some, List, [], ◌∷◌, arith,
  length, get_elem?,
}
use mercury_farm.Groups.Types.{Window, GroupClass, class_duration}

-- `repetitions` rounds of the loop; a class with no period gives invalid dates.
abbrev shift : Option ℕ → Option Window → Option Window
shift (some p) (some w) = some (record { start = w.start + p; stop = w.stop + p })
shift _ _ = none

later_dates : ℕ → Option ℕ → Option Window → List (Option Window)
later_dates zero period w = []
later_dates (suc n) period w = shift period w ∷ later_dates n period (shift period w)

-- `new Array(lifeTime)` holds the first window, and the loop starts at repetition 1.
unfoldable pub compute_group_dates : Window → GroupClass → ℕ → List (Option Window)
unfolding later_dates
compute_group_dates life class repetitions =
    some life ∷ later_dates (repetitions - 1) (class_duration class) (some life)

later_dates-get :
    (n i p : ℕ) (w : Window)
    → i < n
    → get_elem? (later_dates n (some p) (some w)) i
      ≡ some (some (record { start = w.start + (i + 1) * p; stop = w.stop + (i + 1) * p }))
unfolding later_dates
later_dates-get zero i p w h = absurd (omega arith)
later_dates-get (suc n) zero p w h = ground arith
later_dates-get (suc n) (suc i) p w h =
    later_dates-get n i p (record { start = w.start + p; stop = w.stop + p }) (omega arith)
    ∙ ground arith

length-later_dates : (n : ℕ) (p : Option ℕ) (w : Option Window) → length (later_dates n p w) ≡ n
unfolding later_dates
length-later_dates zero p w = refl
length-later_dates (suc n) p w = ap suc (length-later_dates n p (shift p w))

-- A class with a period, repeated at least once, has as many windows as repetitions, and window i
-- is the first one moved by i periods.
pub compute_group_dates-get :
    (life : Window) (class : GroupClass) (repetitions i p : ℕ)
    → class_duration class ≡ some p
    → i < repetitions
    → (length (compute_group_dates life class repetitions) ≡ repetitions)
      × (get_elem? (compute_group_dates life class repetitions) i
          ≡ some (some (record { start = life.start + i * p; stop = life.stop + i * p })))
unfolding compute_group_dates
compute_group_dates-get life class zero i p e h = absurd (omega arith)
compute_group_dates-get life class (suc n) zero p e h =
    (ground (arith, length-later_dates n (class_duration class) (some life)), ground arith)
compute_group_dates-get life class (suc n) (suc i) p e h = (
  ground (arith, length-later_dates n (class_duration class) (some life)),
  rw e (ground (arith, later_dates-get n i p life)),
)
