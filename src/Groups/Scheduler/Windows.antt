-- ===== src/Groups/Scheduler/Windows.antt =====
-- What happens to a group whose window comes, and to one whose window is over.
use mathlib.Core.List.{Memᴰ}
use mathlib.Core.Path.{subst}
use mercury_farm.Base.{
  ℕ, ◌+◌, ◌≤◌, ◌<◌, ◌≡◌, refl, sym, Bool, false, not, ◌&&◌, some, List, [], ◌∷◌, ◌++◌, arith, ltb,
  leb, drop, if◌then◌else◌, if-cases,
}
use mercury_farm.Groups.Types.{Group, Window, one_year}
use mercury_farm.Groups.Rules.{is_origin_group, compute_duration}
use mercury_farm.Groups.Scheduler.{
  Task, Scheduler, activate, close_window, tasks_of, last_of, is_single, set_scheduled_task,
  set_all, process_group, schedule_all_groups_tasks, update_group_dates, written, with_dates,
  DatesUpdate,
}
use mercury_farm.Groups.Scheduler.Timer.{TimerFor, schedule-TimerFor}

-- A group that can be booked, and that still has a window.
pub record IsOpen (now : ℕ) (g : Group) (w : Window) (ws : List Window) : Type 0 where
  pub dates : g.dates ≡ w ∷ ws
  pub booked : is_origin_group g.class ≡ false
  pub not_over : now < (last_of w ws).stop

Mem-++_l : {t : Task} (ts us : List Task) → Memᴰ t ts → Memᴰ t (ts ++ us)
Mem-++_l [] us i = elim i [ ]
Mem-++_l (x ∷ ts) us (Memᴰ.head e) = Memᴰ.head e
Mem-++_l (x ∷ ts) us (Memᴰ.tail m) = Memᴰ.tail (Mem-++_l ts us m)

Mem-++_r : {t : Task} (ts us : List Task) → Memᴰ t us → Memᴰ t (ts ++ us)
Mem-++_r [] us m = m
Mem-++_r (x ∷ ts) us m = Memᴰ.tail (Mem-++_r ts us m)

abbrev pub activation : Group → Window → Task
activation g w = record { group_id = g.id; time = w.start; job = activate }

abbrev pub closing : Group → Window → List Window → Task
closing g w ws = record { group_id = g.id; time = w.stop; job = close_window (is_single ws) }

-- the part of the list that the last two calls make
abbrev timeline : ℕ → Group → Window → List Window → List Task
timeline now g w ws =
    (if ltb now w.stop && not g.is_active then activation g w ∷ [] else []) ++ closing g w ws ∷ []

tasks-timeline :
    (now : ℕ) (g : Group) (w : Window) (ws : List Window) (t : Task)
    → is_origin_group g.class ≡ false
    → now < (last_of w ws).stop
    → Memᴰ t (timeline now g w ws)
    → Memᴰ t (tasks_of now g (w ∷ ws))
unfolding tasks_of
tasks-timeline now g w ws t booked h m =
    if-cases (Memᴰ t) (leb (last_of w ws).stop now) (λ late. absurd (ground arith))
      (λ _.
        if-cases (Memᴰ t) (is_origin_group g.class) (λ origin. absurd (ground arith))
          (λ _. Mem-++_r _ _ m))

tasks-open :
    (now : ℕ) (g : Group) (w : Window) (ws : List Window) (t : Task)
    → IsOpen now g w ws
    → Memᴰ t (timeline now g w ws)
    → Memᴰ t (tasks_of now g g.dates)
tasks-open now g w ws t o m =
    subst (λ d. Memᴰ t (tasks_of now g d)) (sym o.dates)
      (tasks-timeline now g w ws t o.booked o.not_over m)

tasks-activation :
    (now : ℕ) (g : Group) (w : Window) (ws : List Window)
    → IsOpen now g w ws
    → g.is_active ≡ false
    → now < w.stop
    → Memᴰ (activation g w) (tasks_of now g g.dates)
tasks-activation now g w ws o idle h = tasks-open now g w ws (activation g w) o (
    if-cases (λ ts. Memᴰ (activation g w) (ts ++ closing g w ws ∷ []))
      (ltb now w.stop && not g.is_active) (λ _. Memᴰ.head refl) (λ e. absurd (ground arith)))

tasks-closing :
    (now : ℕ) (g : Group) (w : Window) (ws : List Window)
    → IsOpen now g w ws
    → Memᴰ (closing g w ws) (tasks_of now g g.dates)
tasks-closing now g w ws o =
    tasks-open now g w ws (closing g w ws) o (Mem-++_r _ _ (Memᴰ.head refl))

-- A ready group that is open and not active, and whose first window starts later, but in less than
-- a year: after a scheduling a timer is set, at the latest for that start.
pub starts_in_time :
    (now : ℕ) (gs : List Group) (s : Scheduler) (g : Group) (w : Window) (ws : List Window)
    → Memᴰ g gs
    → IsOpen now g w ws
    → g.is_active ≡ false
    → now < w.start
    → w.start < w.stop
    → w.start < now + one_year
    → TimerFor now (activation g w) (schedule_all_groups_tasks now gs s)
starts_in_time now gs s g w ws i o idle h l near =
    schedule-TimerFor now gs s g (activation g w) i
      (tasks-activation now g w ws o idle (omega arith)) h (omega arith)

-- A ready group that is still open, and whose first window stops later, but in less than a year:
-- after a scheduling a timer is set, at the latest for that stop.
pub stops_in_time :
    (now : ℕ) (gs : List Group) (s : Scheduler) (g : Group) (w : Window) (ws : List Window)
    → Memᴰ g gs
    → IsOpen now g w ws
    → now < w.stop
    → w.stop < now + one_year
    → TimerFor now (closing g w ws) (schedule_all_groups_tasks now gs s)
stops_in_time now gs s g w ws i o h near =
    schedule-TimerFor now gs s g (closing g w ws) i (tasks-closing now g w ws o) h (omega arith)

ran-stays :
    (now : ℕ) (t : Task) (ts : List Task) (s : Scheduler)
    → Memᴰ t s.ran
    → Memᴰ t (set_all now ts s).ran
unfolding set_all set_scheduled_task
ran-stays now t [] s m = m
ran-stays now t (u ∷ ts) s m = ran-stays now t ts (set_scheduled_task now u s) (
    if-cases (λ (r : Scheduler). Memᴰ t r.ran) (leb u.time now) (λ _. Mem-++_l s.ran (u ∷ []) m)
      (λ _. m))

set_all-ran :
    (now : ℕ) (t : Task) (ts : List Task) (s : Scheduler)
    → t.time ≤ now
    → Memᴰ t ts
    → Memᴰ t (set_all now ts s).ran
unfolding set_all set_scheduled_task
set_all-ran now t [] s h i = elim i [ ]
set_all-ran now t (u ∷ ts) s h (Memᴰ.tail m) = set_all-ran now t ts (set_scheduled_task now u s) h m
set_all-ran now t (u ∷ ts) s h (Memᴰ.head e) = ran-stays now t ts (set_scheduled_task now u s) (
    subst (λ (x : Task). Memᴰ t (set_scheduled_task now x s).ran) e
      (if-cases (λ (r : Scheduler). Memᴰ t r.ran) (leb t.time now)
        (λ _. Mem-++_r s.ran (t ∷ []) (Memᴰ.head refl)) (λ early. absurd (ground arith))))

-- A group that is open and whose first window is over has the end of that window handled at once.
pub over_window_runs :
    (now : ℕ) (s : Scheduler) (g : Group) (w : Window) (ws : List Window)
    → IsOpen now g w ws
    → w.stop ≤ now
    → Memᴰ (closing g w ws) (process_group now g s).ran
unfolding process_group
over_window_runs now s g w ws o h =
    set_all-ran now (closing g w ws) (tasks_of now g g.dates) s h (tasks-closing now g w ws o)

Kept : Group → ℕ → List Window → DatesUpdate → Type 0
Kept g i ds (written h) =
    (h.dates ≡ ds) × (h.repetitions + i ≡ g.repetitions) × (compute_duration h 0 ≡ some h.duration)
Kept g i ds _ = Unit

with_dates-Kept :
    (g : Group) (i : ℕ) (a : Bool) (ds : List Window) → Kept g i ds (with_dates g i a ds)
unfolding with_dates compute_duration Kept
with_dates-Kept g i a [] = tt
with_dates-Kept g i a (w ∷ ws) =
    if-cases (Kept g i (w ∷ ws)) (ltb g.repetitions i) (λ _. tt)
      (λ e. (refl, ground arith, ground arith))

-- An update of the dates that is written keeps the windows from the index on, takes the index off
-- the repetitions, and its duration is what computeDuration finds for the new document.
pub update_group_dates-compute_duration :
    (g h : Group) (i : ℕ) (a : Bool)
    → update_group_dates g i a ≡ written h
    → (h.dates ≡ drop i g.dates)
      × (h.repetitions + i ≡ g.repetitions)
      × (compute_duration h 0 ≡ some h.duration)
unfolding update_group_dates Kept
update_group_dates-compute_duration g h i a e =
    subst (Kept g i (drop i g.dates)) e (with_dates-Kept g i a (drop i g.dates))
