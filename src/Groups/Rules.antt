-- ===== src/Groups/Rules.antt =====
-- lib/util/apiutil.js: what may be done with a group, what it costs, and what an update's statistics
-- mean to a caller.
use mercury_farm.Base.{
  ℕ, ◌+◌, ◌-◌, ◌*◌, ◌≡◌, Bool, true, false, ◌&&◌, ◌||◌, Option, none, some, List, [], ◌∷◌, arith,
  ◌==◌, ltb, if◌then◌else◌, length, take,
}
use mercury_farm.Base.Text.{String, str_eq, mem_text}
use mercury_farm.Groups.Types.{Window, Group, GroupClass, bookable, standard, debug}

unfoldable pub is_origin_group : GroupClass → Bool
is_origin_group bookable = true
is_origin_group standard = true
is_origin_group _ = false

unfoldable pub is_admin_group : GroupClass → Bool
unfolding is_origin_group
is_admin_group debug = true
is_admin_group c = is_origin_group c

abbrev first_length : List Window → Option ℕ
first_length [] = none
first_length (w ∷ _) = some (w.stop - w.start)

-- `computeDuration` with `n` devices more; none is the TypeError on a group without dates. A window
-- stops after it starts.
unfoldable pub compute_duration : Group → ℕ → Option ℕ
compute_duration g n = elim (first_length g.dates) [
  | none ↦ none
  | some d ↦ some ((length g.devices + n) * d * (g.repetitions + 1))
]

pub data Privilege : Type 0 where
  root admin user : Privilege

abbrev is_admin : Privilege → Bool
is_admin admin = true
is_admin _ = false

unfoldable pub is_owner_group : Group → String → Bool
is_owner_group g email = str_eq g.owner email

unfoldable pub has_group_edit_permission : Group → Privilege → String → Bool → Bool
has_group_edit_permission g p email allow_moderator =
    is_admin p || (str_eq g.owner email || (allow_moderator && mem_text email g.moderators))

-- what an update reports
pub record Stats : Type 0 where
  pub modified_count : ℕ
  pub matched_count : ℕ
  pub skipped : Bool
  pub locked : Bool

-- `lockResult`: the status, and the statistics with `locked` set
unfoldable pub lock_result : Stats → Bool × Stats
lock_result s =
    if ltb 0 s.modified_count || ltb 0 s.matched_count
    then (true, record s { locked = false })
    else (false, record s { locked = true })

-- `computeStats`: the status of the response, or none where the call goes on
unfoldable pub compute_stats : Stats → Option ℕ
compute_stats s =
    if s.modified_count == 0
    then if s.skipped then some 404 else if s.locked then some 429 else some 403
    else none

-- A lock that is held elsewhere is answered with 429, and one that was taken lets the call go on,
-- if the object was not skipped and the update of a matched document also modifies it.
pub lock_then_stats :
    (s : Stats)
    → s.skipped ≡ false
    → s.modified_count ≡ s.matched_count
    → compute_stats (lock_result s).1 ≡ (if (lock_result s).0 then none else some 429)
unfolding lock_result compute_stats
lock_then_stats s k m = ground arith

-- `setIntervalWrapper`: the results of the attempts are given; the first that has its status set is
-- returned, with the number of attempts made, and after the last one the wrapper rejects.
pub data Outcome {ℓ} (A : Type ℓ) : Type ℓ where
  resolved : A → Outcome A
  rejected : Option A → Outcome A

module _ {A : Type 0} where
  attempts : ℕ → Option A → List (Bool × A) → Outcome A × ℕ
  attempts made last [] = (rejected last, made)
  attempts made last ((status, data_) ∷ rest) =
      let later = attempts (made + 1) (some data_) rest in
      if status then (resolved data_, made + 1) else later

  unfoldable pub set_interval_wrapper : ℕ → List (Bool × A) → Outcome A × ℕ
  unfolding attempts
  set_interval_wrapper num_times results = attempts 0 none (take num_times results)
