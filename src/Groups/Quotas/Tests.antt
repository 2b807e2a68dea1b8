-- ===== src/Groups/Quotas/Tests.antt =====
-- Quotas on concrete users.
use mercury_farm.Base.{◌≡◌, refl, none, some, List, [], ◌∷◌}
use mercury_farm.Base.Int.{pos, ◌+ℤ◌}
use mercury_farm.Groups.Quotas.{
  Env, create, reserve, release, update_duration, update_quotas, update_defaults, Update, reserves,
  releases, charges, allocates, sets_defaults, update, run,
}

abbrev env : Env
env = record { groups_number = 2; groups_duration = 100; groups_repetitions = 5 }

abbrev some_updates : List Update
some_updates =
    reserves
    ∷ reserves
    ∷ reserves
    ∷ charges 0 80
    ∷ charges 0 30
    ∷ allocates 90 1 0
    ∷ allocates 90 2 0
    ∷ sets_defaults (some 1) none none
    ∷ releases
    ∷ []

run_test : (run some_updates (create env none)).consumed_number ≡ 1
unfolding run update create reserve release update_duration update_quotas update_defaults ◌+ℤ◌
run_test = refl

run_test_duration : (run some_updates (create env none)).consumed_duration ≡ pos 80
unfolding run update create reserve release update_duration update_quotas update_defaults ◌+ℤ◌
run_test_duration = refl
