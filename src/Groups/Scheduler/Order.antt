-- ===== src/Groups/Scheduler/Order.antt =====
-- The order of the task queue of lib/db/handlers/group/scheduler.js.
use mercury_farm.Base.{
  ℕ, ◌+◌, ◌≤◌, ◌<◌, ◌≡◌, ap, true, false, Option, none, some, List, [], ◌∷◌, arith, leb, All,
  if-cases, is_some,
}
use mercury_farm.Groups.Types.{Group}
use mercury_farm.Groups.Scheduler.{
  Task, Scheduler, get, is_later, place, set_scheduled_task, tasks_of, set_all, process_group,
  process_groups,
}

abbrev pub time_of : Option Task → ℕ
time_of none = 0
time_of (some t) = t.time

abbrev pub task_time : List (ℕ × Task) → ℕ → ℕ
task_time m k = time_of (get m k)

abbrev pub IsSorted : List (ℕ × Task) → List ℕ → Type 0
IsSorted m [] = Unit
IsSorted m (k ∷ ks) = All (λ j. task_time m k ≤ task_time m j) ks × IsSorted m ks

-- the queue is in order, and its keys are those of tasks and are not used again
pub record Inv (s : Scheduler) : Type 0 where
  pub sorted : IsSorted s.scheduled_tasks s.task_queue
  pub known : All (λ k. is_some (get s.scheduled_tasks k) ≡ true) s.task_queue
  pub below : All (λ k. k < s.next_key) s.task_queue

module _ (m : List (ℕ × Task)) (key : ℕ) (t : Task) where
  pub get-fresh : (k : ℕ) → k < key → get ((key, t) ∷ m) k ≡ get m k
  unfolding get
  get-fresh k h = ground arith

  All-fresh :
      (x : ℕ) (ks : List ℕ)
      → All (λ k. k < key) ks
      → All (λ j. x ≤ task_time m j) ks
      → All (λ j. x ≤ task_time ((key, t) ∷ m) j) ks
  All-fresh x [] b a = tt
  All-fresh x (k ∷ ks) b a = (rw (get-fresh k b.0) a.0, All-fresh x ks b.1 a.1)

  IsSorted-fresh :
      (ks : List ℕ) → All (λ k. k < key) ks → IsSorted m ks → IsSorted ((key, t) ∷ m) ks
  IsSorted-fresh [] b a = tt
  IsSorted-fresh (k ∷ ks) b a =
      (rw (get-fresh k b.0) (All-fresh (task_time m k) ks b.1 a.0), IsSorted-fresh ks b.1 a.1)

  known-fresh :
      (ks : List ℕ)
      → All (λ k. k < key) ks
      → All (λ k. is_some (get m k) ≡ true) ks
      → All (λ k. is_some (get ((key, t) ∷ m) k) ≡ true) ks
  known-fresh [] b a = tt
  known-fresh (k ∷ ks) b a = (rw (get-fresh k b.0) a.0, known-fresh ks b.1 a.1)

All-place :
    (P : ℕ → Type 0) (m : List (ℕ × Task)) (time key : ℕ) (ks : List ℕ)
    → P key
    → All P ks
    → All P (place m time key ks)
unfolding place
All-place P m time key [] p a = (p, tt)
All-place P m time key (k ∷ ks) p a =
    if-cases (All P) (is_later m time k) (λ _. (p, a)) (λ _. (a.0, All-place P m time key ks p a.1))

All-le :
    (m : List (ℕ × Task)) (x y : ℕ) (ks : List ℕ)
    → x ≤ y
    → All (λ j. y ≤ task_time m j) ks
    → All (λ j. x ≤ task_time m j) ks
All-le m x y [] h a = tt
All-le m x y (k ∷ ks) h a = (omega arith, All-le m x y ks h a.1)

is_later-lt : (m : List (ℕ × Task)) (time k : ℕ) → is_later m time k ≡ true → time < task_time m k
unfolding is_later
is_later-lt m time k h = ground arith

is_later-le :
    (m : List (ℕ × Task)) (time k : ℕ)
    → is_some (get m k) ≡ true
    → is_later m time k ≡ false
    → task_time m k ≤ time
unfolding is_later
is_later-le m time k e h = ground arith

place-IsSorted :
    (m : List (ℕ × Task)) (time key : ℕ) (ks : List ℕ)
    → task_time m key ≡ time
    → All (λ k. is_some (get m k) ≡ true) ks
    → IsSorted m ks
    → IsSorted m (place m time key ks)
unfolding place
place-IsSorted m time key [] e known s = (tt, tt)
place-IsSorted m time key (k ∷ ks) e known s =
    if-cases (IsSorted m) (is_later m time k)
      (λ h.
        let lt : task_time m key ≤ task_time m k = rw e (omega (arith, is_later-lt m time k h)) in
        ((lt, All-le m (task_time m key) (task_time m k) ks lt s.0), s))
      (λ h. (
        All-place (λ j. task_time m k ≤ task_time m j) m time key ks
            (rw e (is_later-le m time k known.0 h)) s.0,
        place-IsSorted m time key ks e known.1 s.1,
      ))

All-lt_suc : (n : ℕ) (ks : List ℕ) → All (λ k. k < n) ks → All (λ k. k < n + 1) ks
All-lt_suc n [] a = tt
All-lt_suc n (k ∷ ks) a = (omega arith, All-lt_suc n ks a.1)

pub get-own : (m : List (ℕ × Task)) (key : ℕ) (t : Task) → get ((key, t) ∷ m) key ≡ some t
unfolding get
get-own m key t = ground arith

-- A task that is set keeps the queue in order.
pub set_scheduled_task-Inv :
    (now : ℕ) (t : Task) (s : Scheduler) → Inv s → Inv (set_scheduled_task now t s)
unfolding set_scheduled_task
set_scheduled_task-Inv now t s v =
    if-cases Inv (leb t.time now)
      (λ _. record { sorted = v.sorted; known = v.known; below = v.below })
      (λ _.
        let m : List (ℕ × Task) = (s.next_key, t) ∷ s.scheduled_tasks in
        let own : get m s.next_key ≡ some t = get-own s.scheduled_tasks s.next_key t in
        record {
          sorted =
              place-IsSorted m t.time s.next_key s.task_queue (ap time_of own)
                (known-fresh s.scheduled_tasks s.next_key t s.task_queue v.below v.known)
                (IsSorted-fresh s.scheduled_tasks s.next_key t s.task_queue v.below v.sorted);
          known =
              All-place (λ k. is_some (get m k) ≡ true) m t.time s.next_key s.task_queue
                (ap is_some own)
                (known-fresh s.scheduled_tasks s.next_key t s.task_queue v.below v.known);
          below =
              All-place (λ k. k < s.next_key + 1) m t.time s.next_key s.task_queue (omega arith)
                (All-lt_suc s.next_key s.task_queue v.below);
        })

pub set_all-Inv : (now : ℕ) (ts : List Task) (s : Scheduler) → Inv s → Inv (set_all now ts s)
unfolding set_all
set_all-Inv now [] s v = v
set_all-Inv now (t ∷ ts) s v = set_all-Inv now ts _ (set_scheduled_task-Inv now t s v)

pub process_groups-Inv :
    (now : ℕ) (gs : List Group) (s : Scheduler) → Inv s → Inv (process_groups now gs s)
unfolding process_groups process_group
process_groups-Inv now [] s v = v
process_groups-Inv now (g ∷ gs) s v =
    process_groups-Inv now gs _ (set_all-Inv now (tasks_of now g g.dates) s v)
