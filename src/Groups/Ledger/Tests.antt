-- ===== src/Groups/Ledger/Tests.antt =====
-- Calls on a concrete ledger.
use mercury_farm.Base.{ℕ, ◌≡◌, refl, true, false, some, List, [], ◌∷◌, arith, if-cases}
use mercury_farm.Base.Int.{pos, negsuc, ◌+ℤ◌, sub_ℕ}
use mercury_farm.Base.Text.{String, str_eq, eq_iff, field}
use mercury_farm.Groups.Types.{Window, Group, once}
use mercury_farm.Groups.Rules.{is_origin_group, compute_duration}
use mercury_farm.Groups.Overlap.{check_dates_overlaps}
use mercury_farm.Groups.Quotas.{Quotas, reserve, is_reserved, release, update_duration, is_charged}
use mercury_farm.Groups.Ledger.{
  Db, change_user, change_group, get_group, delete_group, is_modified, rivals, uniq, difference,
  compute_duration_less, add_charged, add_priced, add_group_devices, remove_priced,
  remove_group_devices, Data, update_user_group, create_reserved, create_user_group, deleted,
  delete_user_group, Call, adds, removes, updates, creates, deletes, call_on, step, run,
}
use mercury_farm.Groups.Ledger.Accounts.{owned, held}
use mercury_farm.Groups.Ledger.Balance.{Fits, Balanced}
use mercury_farm.Groups.Ledger.Steps.{is_regular_on, is_regular, is_regular_run, run-Balanced}
use mercury_farm.Groups.Ledger.Refusals.{again, IsRecharged, update-is_free, overlap-keeps_charge}

abbrev window : Window
window = record { start = 10; stop = 20 }

abbrev group_of : String → ℕ → List String → Group
group_of id duration devices = record {
  id = id;
  class = once;
  owner = "ann";
  dates = window ∷ [];
  duration = duration;
  repetitions = 0;
  devices = devices;
  users = [];
  moderators = [];
  is_active = false;
}

abbrev quotas : Quotas
quotas = record {
  allocated_number = 2;
  allocated_duration = 100;
  consumed_number = 0;
  consumed_duration = pos 0;
  repetitions = 5;
  default_groups_number = 0;
  default_groups_duration = 0;
  default_groups_repetitions = 0;
}

abbrev start : Db
start = record { users = ("ann", quotas) ∷ []; groups = group_of "root" 0 [] ∷ [] }

start-Balanced : Balanced "root" start
unfolding field owned held
start-Balanced email =
    if-cases (Fits "root" email start.groups) (str_eq "ann" email)
      (λ h. record {
        within = record { of_number = omega arith; of_duration = ground arith };
        of_duration = ground arith;
        of_number = ground (arith, eq_iff "root" "root");
      })
      (λ _. tt)

abbrev same_duration : ℕ → Data
same_duration n = record {
  class = once;
  is_active = false;
  repetitions = 0;
  dates = window ∷ [];
  duration = n;
}

abbrev calls : List Call
calls =
    creates (group_of "g" 0 [])
    ∷ adds "g" ("d" ∷ "e" ∷ [])
    ∷ removes "g" ("d" ∷ [])
    ∷ updates "g" (same_duration 10)
    ∷ creates (group_of "h" 0 [])
    ∷ deletes "g"
    ∷ deletes "root"
    ∷ []

calls-is_regular : is_regular_run "root" calls start ≡ true
unfolding is_regular_run is_regular is_regular_on step call_on get_group field add_group_devices
    add_priced add_charged is_modified is_charged change_user change_group delete_group rivals uniq
    difference compute_duration_less remove_group_devices remove_priced update_user_group
    create_user_group create_reserved deleted delete_user_group reserve is_reserved release
    update_duration ◌+ℤ◌ compute_duration check_dates_overlaps is_origin_group
calls-is_regular = refl

run-Balanced_example : Balanced "root" (run "root" calls start)
run-Balanced_example = run-Balanced "root" calls start start-Balanced calls-is_regular

abbrev spent : Quotas
spent = record quotas { consumed_number = 1; consumed_duration = pos 50 }

abbrev booked : Db
booked = record {
  users = ("ann", spent) ∷ [];
  groups = group_of "g" 50 ("e" ∷ []) ∷ group_of "h" 10 ("d" ∷ []) ∷ [];
}

abbrev two : ℕ
two = 2

update-is_free_example :
    IsRecharged booked
      (group_of "g" 50 ("e" ∷ []))
      spent
      (negsuc 29)
      (run "root" (again two (updates "g" (same_duration 10))) booked)
unfolding field get_group ◌+ℤ◌
update-is_free_example =
    update-is_free two "root" (same_duration 10) (group_of "g" 50 ("e" ∷ [])) booked spent refl refl
      (omega arith) refl

abbrev wanted : List String
wanted = "d" ∷ []

overlap-keeps_charge_example :
    (duration : ℕ) × (compute_duration (group_of "g" 50 ("e" ∷ [])) 1 ≡ some duration)
    × IsRecharged booked
        (group_of "g" 50 ("e" ∷ []))
        spent
        (spent.consumed_duration +ℤ sub_ℕ duration 50)
        (add_group_devices (group_of "g" 50 ("e" ∷ [])) wanted booked).1
unfolding add_group_devices add_priced add_charged is_modified is_charged field rivals
    is_origin_group check_dates_overlaps compute_duration ◌+ℤ◌
overlap-keeps_charge_example =
    overlap-keeps_charge (group_of "g" 50 ("e" ∷ [])) wanted booked spent refl refl
