-- ===== src/Groups/Quotas/Bounds.antt =====
-- What a user has consumed, against what is allocated.
use mercury_farm.Base.{◌≤◌, ◌≡◌, true, Option, none, some, List, [], ◌∷◌, arith, if-cases}
use mercury_farm.Base.Int.{pos, leb_ℤ}
use mercury_farm.Groups.Quotas.{
  Quotas, Env, create, reserve, release, affords, takes_duration, takes_number, update_duration,
  update_quotas, update_defaults, Update, reserves, releases, charges, allocates, sets_defaults,
  update, run,
}

pub record Within (q : Quotas) : Type 0 where
  pub of_number : q.consumed_number ≤ q.allocated_number
  pub of_duration : leb_ℤ q.consumed_duration (pos q.allocated_duration) ≡ true

create-Within : (env : Env) (admin : Option Quotas) → Within (create env admin)
unfolding create
create-Within env none = record { of_number = omega arith; of_duration = ground arith }
create-Within env (some a) = record { of_number = omega arith; of_duration = ground arith }

pub update-Within : (u : Update) (q : Quotas) → Within q → Within (update u q)
unfolding update reserve release update_duration update_quotas update_defaults
update-Within reserves q w = record { of_number = omega arith; of_duration = w.of_duration }
update-Within releases q w = record {
  of_number = ground (arith, w.of_number);
  of_duration = w.of_duration;
}
update-Within (charges old new) q w =
    if-cases Within (affords old new q) (λ h. record { of_number = w.of_number; of_duration = h })
      (λ _. w)
update-Within (allocates duration number repetitions) q w = record {
  of_number =
      if-cases (λ n. q.consumed_number ≤ n) (takes_number duration number q) (λ h. ground arith)
        (λ _. w.of_number);
  of_duration =
      if-cases (λ n. leb_ℤ q.consumed_duration (pos n) ≡ true) (takes_duration duration number q)
        (λ h. ground arith) (λ _. w.of_duration);
}
update-Within (sets_defaults duration number repetitions) q w = record {
  of_number = w.of_number;
  of_duration = w.of_duration;
}

run-from : (updates : List Update) (q : Quotas) → Within q → Within (run updates q)
unfolding run
run-from [] q w = w
run-from (u ∷ updates) q w = run-from updates (update u q) (update-Within u q w)

-- Of a user that is created with or without an administrator, after any updates of the quotas, the
-- consumed number and the consumed duration are at most those allocated.
pub run-Within :
    (updates : List Update) (env : Env) (admin : Option Quotas)
    → Within (run updates (create env admin))
run-Within updates env admin = run-from updates (create env admin) (create-Within env admin)
