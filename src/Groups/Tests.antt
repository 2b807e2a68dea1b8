-- ===== src/Groups/Tests.antt =====
-- Runs of the definitions and theorems on small groups.
use mathlib.Core.List.{Memᴰ}
use mercury_farm.Base.{ℕ, ◌≡◌, refl, true, false, none, some, [], ◌∷◌, arith, All}
use mercury_farm.Groups.Types.{Window, Group, daily, one_day, class_duration}
use mercury_farm.Groups.Rules.{Stats, is_origin_group}
use mercury_farm.Groups.Overlap.{check_dates_overlaps, no_overlap, Covered}
use mercury_farm.Groups.Builds.{
  Device, Build, running, matches_active_filter, finish_build_if_inactive, count_active,
}
use mercury_farm.Groups.Scheduler.{
  Scheduler, tasks_of, schedule_all_groups_tasks, process_group, update_group_dates, written,
  schedule_next_task, next_task, process_groups, set_all, find_window, set_scheduled_task, place,
  is_later, get, with_dates,
}
use mercury_farm.Groups.Scheduler.Windows.{IsOpen, closing, over_window_runs}

-- two windows of ten milliseconds
abbrev first_window : Window
first_window = record { start = 1000; stop = 1010 }

abbrev second_window : Window
second_window = record { start = 2000; stop = 2010 }

abbrev team : Group
team = record {
  id = "team";
  class = daily;
  owner = "ann";
  dates = first_window ∷ second_window ∷ [];
  duration = 40;
  repetitions = 1;
  devices = "pixel" ∷ "moto" ∷ [];
  users = "ann" ∷ "bob" ∷ [];
  moderators = "bob" ∷ [];
  is_active = false;
}

abbrev later_team : Group
later_team = record team { id = "later"; dates = second_window ∷ []; repetitions = 0 }

abbrev early_team : Group
early_team = record team { id = "early"; dates = first_window ∷ []; repetitions = 0 }

abbrev idle : Scheduler
idle = record { next_key = 0; scheduled_tasks = []; task_queue = []; timer = none; ran = [] }

timer_for_first :
    (schedule_all_groups_tasks 500 (later_team ∷ team ∷ []) idle).timer ≡ some (3, 500)
unfolding schedule_all_groups_tasks schedule_next_task next_task process_groups process_group
    set_all tasks_of is_origin_group find_window set_scheduled_task place is_later get
timer_for_first = refl

abbrev one_change : Stats
one_change = record { modified_count = 1; matched_count = 1; skipped = false; locked = false }

day-period : class_duration daily ≡ some one_day
unfolding class_duration
day-period = refl

no-clash : check_dates_overlaps later_team (early_team ∷ []) ≡ none
unfolding check_dates_overlaps
no-clash = refl

clash : check_dates_overlaps team (early_team ∷ []) ≡ some early_team
unfolding check_dates_overlaps
clash = refl

no_overlap_example :
    All (λ h. (t : ℕ) → Covered t later_team.dates → Covered t h.dates → ⊥) (early_team ∷ [])
no_overlap_example = no_overlap later_team (early_team ∷ []) no-clash

-- a device that its build's tests keep alive
abbrev busy : Device
busy = record {
  serial = "pixel";
  owner = none;
  group_id = some "team";
  automation_alive = some (record { group = "team"; at = 1000 });
}

abbrev nightly : Build
nightly = record { id = "team"; state = running; released_at = none }

still_running :
    finish_build_if_inactive (busy ∷ []) (nightly ∷ []) "team" 2000 ≡ (false, nightly ∷ [])
unfolding finish_build_if_inactive count_active matches_active_filter
still_running = refl

booked : is_origin_group daily ≡ false
unfolding is_origin_group
booked = refl

abbrev team-IsOpen : IsOpen 500 team first_window (second_window ∷ [])
team-IsOpen = record { dates = refl; booked = booked; not_over = omega arith }

over_window_runs_example :
    Memᴰ (closing team first_window (second_window ∷ [])) (process_group 1500 team idle).ran
over_window_runs_example =
    over_window_runs 1500 idle team first_window (second_window ∷ [])
      (record { dates = refl; booked = booked; not_over = omega arith }) (omega arith)

abbrev team_next : Group
team_next = record team {
  dates = second_window ∷ [];
  repetitions = 0;
  duration = 20;
  is_active = true;
}

moved : update_group_dates team 1 true ≡ written team_next
unfolding update_group_dates with_dates
moved = refl
