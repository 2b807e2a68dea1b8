-- ===== src/Groups/Scheduler/Timer.antt =====
-- The timer of lib/db/handlers/group/scheduler.js against the tasks that wait.
use mathlib.Core.List.{Memᴰ}
use mathlib.Core.Path.{sym, subst}
use mercury_farm.Base.{
  ℕ, ◌-◌, ◌≤◌, ◌<◌, ◌≡◌, refl, ap, ◌∙◌, true, some, List, [], ◌∷◌, arith, leb, All, if-cases,
  Option-cases, inl, inr, is_some,
}
use mercury_farm.Groups.Types.{Group, one_year}
use mercury_farm.Groups.Scheduler.{
  Task, Scheduler, get, is_later, place, set_scheduled_task, next_task, schedule_next_task,
  tasks_of, set_all, process_group, process_groups, schedule_all_groups_tasks, fire, fired,
}
use mercury_farm.Groups.Scheduler.Order.{
  time_of, task_time, IsSorted, Inv, get-fresh, get-own, set_scheduled_task-Inv, set_all-Inv,
  process_groups-Inv,
}

-- a task that waits
pub record Waits (t : Task) (s : Scheduler) : Type 0 where
  pub key : ℕ
  pub queued : Memᴰ key s.task_queue
  pub found : get s.scheduled_tasks key ≡ some t

All-Mem : (P : ℕ → Type 0) {k : ℕ} (ks : List ℕ) → All P ks → Memᴰ k ks → P k
All-Mem P [] a i = elim i [ ]
All-Mem P (x ∷ ks) a (Memᴰ.head e) = subst P (sym e) a.0
All-Mem P (x ∷ ks) a (Memᴰ.tail m) = All-Mem P ks a.1 m

place-here : (m : List (ℕ × Task)) (time key : ℕ) (ks : List ℕ) → Memᴰ key (place m time key ks)
unfolding place
place-here m time key [] = Memᴰ.head refl
place-here m time key (k ∷ ks) =
    if-cases (Memᴰ key) (is_later m time k) (λ _. Memᴰ.head refl)
      (λ _. Memᴰ.tail (place-here m time key ks))

place-stays :
    (m : List (ℕ × Task)) (time key j : ℕ) (ks : List ℕ) → Memᴰ j ks → Memᴰ j (place m time key ks)
unfolding place
place-stays m time key j [] i = elim i [ ]
place-stays m time key j (k ∷ ks) (Memᴰ.head e) =
    if-cases (Memᴰ j) (is_later m time k) (λ _. Memᴰ.tail (Memᴰ.head e)) (λ _. Memᴰ.head e)
place-stays m time key j (k ∷ ks) (Memᴰ.tail i) =
    if-cases (Memᴰ j) (is_later m time k) (λ _. Memᴰ.tail (Memᴰ.tail i))
      (λ _. Memᴰ.tail (place-stays m time key j ks i))

set-Waits :
    (now : ℕ) (t : Task) (s : Scheduler) → now < t.time → Waits t (set_scheduled_task now t s)
unfolding set_scheduled_task
set-Waits now t s h =
    if-cases (Waits t) (leb t.time now) (λ late. absurd (ground arith))
      (λ _. record {
        key = s.next_key;
        queued = place-here ((s.next_key, t) ∷ s.scheduled_tasks) t.time s.next_key s.task_queue;
        found = get-own s.scheduled_tasks s.next_key t;
      })

keep-Waits :
    (now : ℕ) (t u : Task) (s : Scheduler)
    → Inv s
    → Waits t s
    → Waits t (set_scheduled_task now u s)
unfolding set_scheduled_task
keep-Waits now t u s v w =
    if-cases (Waits t) (leb u.time now)
      (λ _. record { key = w.key; queued = w.queued; found = w.found })
      (λ _. record {
        key = w.key;
        queued =
            place-stays ((s.next_key, u) ∷ s.scheduled_tasks) u.time s.next_key w.key s.task_queue
              w.queued;
        found =
            get-fresh s.scheduled_tasks s.next_key u w.key
              (All-Mem (λ k. k < s.next_key) s.task_queue v.below w.queued)
            ∙ w.found;
      })

set_all-keep :
    (now : ℕ) (t : Task) (ts : List Task) (s : Scheduler)
    → Inv s
    → Waits t s
    → Waits t (set_all now ts s)
unfolding set_all
set_all-keep now t [] s v w = w
set_all-keep now t (u ∷ ts) s v w =
    set_all-keep now t ts _ (set_scheduled_task-Inv now u s v) (keep-Waits now t u s v w)

set_all-Waits :
    (now : ℕ) (t : Task) (ts : List Task) (s : Scheduler)
    → Inv s
    → now < t.time
    → Memᴰ t ts
    → Waits t (set_all now ts s)
unfolding set_all
set_all-Waits now t [] s v h i = elim i [ ]
set_all-Waits now t (u ∷ ts) s v h (Memᴰ.head e) =
    set_all-keep now t ts _ (set_scheduled_task-Inv now u s v)
      (subst (λ x. Waits t (set_scheduled_task now x s)) e (set-Waits now t s h))
set_all-Waits now t (u ∷ ts) s v h (Memᴰ.tail m) =
    set_all-Waits now t ts _ (set_scheduled_task-Inv now u s v) h m

groups-keep :
    (now : ℕ) (t : Task) (gs : List Group) (s : Scheduler)
    → Inv s
    → Waits t s
    → Waits t (process_groups now gs s)
unfolding process_groups process_group
groups-keep now t [] s v w = w
groups-keep now t (g ∷ gs) s v w =
    groups-keep now t gs _ (set_all-Inv now (tasks_of now g g.dates) s v)
      (set_all-keep now t (tasks_of now g g.dates) s v w)

groups-Waits :
    (now : ℕ) (t : Task) (g : Group) (gs : List Group) (s : Scheduler)
    → Inv s
    → now < t.time
    → Memᴰ g gs
    → Memᴰ t (tasks_of now g g.dates)
    → Waits t (process_groups now gs s)
unfolding process_groups process_group
groups-Waits now t g [] s v lt i m = elim i [ ]
groups-Waits now t g (h ∷ gs) s v lt (Memᴰ.head e) m =
    groups-keep now t gs _ (set_all-Inv now (tasks_of now h h.dates) s v) (
      set_all-Waits now t (tasks_of now h h.dates) s v lt
        (subst (λ (x : Group). Memᴰ t (tasks_of now x x.dates)) e m))
groups-Waits now t g (h ∷ gs) s v lt (Memᴰ.tail i) m =
    groups-Waits now t g gs _ (set_all-Inv now (tasks_of now h h.dates) s v) lt i m

-- A timer for a task that is known, and that is not later than any that waits.
pub record TimerFor (now : ℕ) (t : Task) (s : Scheduler) : Type 0 where
  pub key : ℕ
  pub delay : ℕ
  pub armed : s.timer ≡ some (key, delay)
  pub task : Task
  pub found : get s.scheduled_tasks key ≡ some task
  pub delay_is : delay ≡ task.time - now
  pub soon : delay < one_year
  pub first : task.time ≤ t.time

next_task-near :
    (now : ℕ) (e : ℕ × Task) (m : List (ℕ × Task)) (k : ℕ) (ks : List ℕ) (s : Scheduler) (u : Task)
    → get (e ∷ m) k ≡ some u
    → u.time - now < one_year
    → next_task now (e ∷ m) (k ∷ ks) s
      ≡ record s { scheduled_tasks = e ∷ m; task_queue = ks; timer = some (k, u.time - now) }
unfolding next_task
next_task-near now e m k ks s u f h = rw (next_task, f) (ground arith)

first_le :
    (m : List (ℕ × Task)) (k j : ℕ) (ks : List ℕ)
    → IsSorted m (k ∷ ks)
    → Memᴰ j (k ∷ ks)
    → task_time m k ≤ task_time m j
first_le m k j ks o (Memᴰ.head e) = rw e (omega arith)
first_le m k j ks o (Memᴰ.tail i) = All-Mem (λ j. task_time m k ≤ task_time m j) ks o.0 i

next-TimerFor :
    (now : ℕ) (t : Task) (m : List (ℕ × Task)) (ks : List ℕ) (s : Scheduler)
    → IsSorted m ks
    → (j : ℕ) → Memᴰ j ks
    → get m j ≡ some t
    → All (λ k. is_some (get m k) ≡ true) ks
    → t.time - now < one_year
    → TimerFor now t (next_task now m ks s)
unfolding get
next-TimerFor now t m [] s o j i f a h = elim i [ ]
next-TimerFor now t [] (k ∷ ks) s o j i f a h = absurd (ground (arith, a.0))
next-TimerFor now t (e ∷ m) (k ∷ ks) s o j i f a h = elim (Option-cases (get (e ∷ m) k)) [
  | inl missing ↦ absurd (ground (arith, a.0))
  | inr (u, known) ↦
      let le : u.time ≤ t.time =
        omega (arith, ap time_of known, ap time_of f, first_le (e ∷ m) k j ks o i) in
      subst (TimerFor now t) (sym (next_task-near now e m k ks s u known (omega arith))) (record {
        key = k;
        delay = u.time - now;
        armed = refl;
        task = u;
        found = known;
        delay_is = refl;
        soon = omega arith;
        first = le;
      })
]

pub schedule-TimerFor :
    (now : ℕ) (gs : List Group) (s : Scheduler) (g : Group) (t : Task)
    → Memᴰ g gs
    → Memᴰ t (tasks_of now g g.dates)
    → now < t.time
    → t.time - now < one_year
    → TimerFor now t (schedule_all_groups_tasks now gs s)
unfolding schedule_all_groups_tasks schedule_next_task
schedule-TimerFor now gs s g t i m lt near =
    let start : Scheduler = record s { scheduled_tasks = []; task_queue = [] } in
    let v : Inv start = record { sorted = tt; known = tt; below = tt } in
    let p : Scheduler = process_groups now gs start in
    let o : Inv p = process_groups-Inv now gs start v in
    let w : Waits t p = groups-Waits now t g gs start v lt i m in
    next-TimerFor now t p.scheduled_tasks p.task_queue p o.sorted w.key w.queued w.found o.known
      near

-- Of a ready group, a task that is due later, but in less than a year: when the timer that a
-- scheduling has set fires, a task runs that is not due later than this one.
pub first_to_run :
    (now later : ℕ) (gs : List Group) (s : Scheduler) (g : Group) (t : Task)
    → Memᴰ g gs
    → Memᴰ t (tasks_of now g g.dates)
    → now < t.time
    → t.time - now < one_year
    → (u : Task) × ((fire later (schedule_all_groups_tasks now gs s)).0 ≡ some u)
      × (u.time ≤ t.time)
unfolding fire fired
first_to_run now later gs s g t i m lt near =
    let f : TimerFor now t (schedule_all_groups_tasks now gs s) =
      schedule-TimerFor now gs s g t i m lt near in
    (
      f.task,
      ap (λ o. (fired later (schedule_all_groups_tasks now gs s) o).0) f.armed ∙ f.found,
      f.first,
    )
