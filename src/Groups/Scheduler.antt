-- ===== src/Groups/Scheduler.antt =====
-- lib/db/handlers/group/scheduler.js: tasks in the order of their times, one timer for the next one,
-- and what a group is scheduled for. The current time is an argument.
pub mod Order
pub mod Timer
pub mod Windows
use mercury_farm.Base.{
  ℕ, zero, suc, ◌+◌, ◌-◌, ◌*◌, Bool, true, false, not, ◌&&◌, Option, none, some, List, [], ◌∷◌,
  ◌++◌, ltb, leb, ◌==◌, if◌then◌else◌, length, drop, max,
}
use mercury_farm.Base.Text.{String, str_eq}
use mercury_farm.Groups.Types.{Window, Group, GroupClass, once, one_hour, one_mn, one_year}
use mercury_farm.Groups.Rules.{is_origin_group}

-- what a task's closure does when it runs, on the group read then
pub data Job : Type 0 where
  -- the last window is over; true for an origin group
  close_group : Bool → Job
  -- `updateGroupDates(group, windowIndex, group.isActive)`
  move_dates : ℕ → Job
  activate : Job
  -- the first window is over; true if it is the last one
  close_window : Bool → Job
  wait_for_automation : Job

pub record Task : Type 0 where
  pub group_id : String
  pub time : ℕ
  pub job : Job

-- A key is a symbol: the number of the task. `ran` lists the tasks that were run at once.
pub record Scheduler : Type 0 where
  pub next_key : ℕ
  pub scheduled_tasks : List (ℕ × Task)
  pub task_queue : List ℕ
  pub timer : Option (ℕ × ℕ)
  pub ran : List Task

unfoldable pub get : List (ℕ × Task) → ℕ → Option Task
get [] k = none
get ((j, t) ∷ m) k = if j == k then some t else get m k

abbrev pub delete : List (ℕ × Task) → ℕ → List (ℕ × Task)
delete [] k = []
delete ((j, t) ∷ m) k = let rest = delete m k in if j == k then rest else (j, t) ∷ rest

-- `this.scheduledTasks.get(key)?.time > time`
unfoldable pub is_later : List (ℕ × Task) → ℕ → ℕ → Bool
is_later m time k = elim (get m k) [ none ↦ false | some t ↦ ltb time t.time ]

-- The loop over the queue: the key goes before the first later task, or to the end.
unfoldable pub place : List (ℕ × Task) → ℕ → ℕ → List ℕ → List ℕ
place m time key [] = key ∷ []
place m time key (k ∷ ks) =
    let rest = place m time key ks in if is_later m time k then key ∷ k ∷ ks else k ∷ rest

unfoldable pub set_scheduled_task : ℕ → Task → Scheduler → Scheduler
set_scheduled_task now t s =
    if leb t.time now
    then record s { ran = s.ran ++ t ∷ [] }
    else (let tasks = (s.next_key, t) ∷ s.scheduled_tasks in
        record s {
          next_key = s.next_key + 1;
          scheduled_tasks = tasks;
          task_queue = place tasks t.time s.next_key s.task_queue;
        })

-- `scheduleNextTask` on the map and the queue: a task a year away is dropped. A key without a task,
-- which the source would fail on, leaves no timer.
unfoldable pub next_task : ℕ → List (ℕ × Task) → List ℕ → Scheduler → Scheduler
next_task now tasks [] s = record s { scheduled_tasks = tasks; task_queue = []; timer = none }
next_task now [] (k ∷ ks) s = record s { scheduled_tasks = []; task_queue = k ∷ ks; timer = none }
next_task now (e ∷ m) (k ∷ ks) s = elim (get (e ∷ m) k) [
  | none ↦ record s { scheduled_tasks = e ∷ m; task_queue = ks; timer = none }
  | some t ↦
      let delay = t.time - now in
      let dropped = next_task now (delete (e ∷ m) k) ks s in
      if leb one_year delay
      then dropped
      else record s { scheduled_tasks = e ∷ m; task_queue = ks; timer = some (k, delay) }
]

unfoldable pub schedule_next_task : ℕ → Scheduler → Scheduler
schedule_next_task now s = next_task now s.scheduled_tasks s.task_queue s

-- The timer's callback: the task that runs, and the scheduler when it has run.
unfoldable pub fired : ℕ → Scheduler → Option (ℕ × ℕ) → Option Task × Scheduler
fired now s none = (none, s)
fired now s (some (key, delay)) = (
  get s.scheduled_tasks key,
  schedule_next_task now
      (record s { scheduled_tasks = delete s.scheduled_tasks key; timer = none }),
)

unfoldable pub fire : ℕ → Scheduler → Option Task × Scheduler
fire now s = fired now s s.timer

-- the last of the windows, and the test that one of them is over
abbrev pub last_of : Window → List Window → Window
last_of w [] = w
last_of w (v ∷ vs) = last_of v vs

-- `findIndex((w, i) => i > group.repetitions - 1 && now < w.stop)`, from index `i` on
unfoldable pub find_window : ℕ → ℕ → ℕ → List Window → Option ℕ
find_window now repetitions i [] = none
find_window now repetitions i (w ∷ ws) =
    let rest = find_window now repetitions (i + 1) ws in
    if ltb repetitions (i + 1) && ltb now w.stop then some i else rest

abbrev stop_of : List Window → ℕ → Option ℕ
stop_of [] i = none
stop_of (w ∷ ws) zero = some w.stop
stop_of (w ∷ ws) (suc i) = stop_of ws i

is_once : GroupClass → Bool
is_once once = true
is_once _ = false

-- a recurrent group whose first windows are over
moving_tasks : Group → Option ℕ → List Task
moving_tasks g none = []
moving_tasks g (some zero) = []
moving_tasks g (some (suc i)) = elim (stop_of g.dates i) [
  | none ↦ []
  | some stop ↦ record { group_id = g.id; time = stop; job = move_dates (suc i) } ∷ []
]

abbrev pub is_single : List Window → Bool
is_single [] = true
is_single (_ ∷ _) = false

-- What `processGroup` hands to `setScheduledTask`, in order. The result of its
-- `group.dates.slice(windowIndex)` is not kept, so the window below is the first one all the same.
unfoldable pub tasks_of : ℕ → Group → List Window → List Task
unfolding is_once moving_tasks
tasks_of now g [] = []
tasks_of now g (w ∷ ws) =
    let last = last_of w ws in
    let is_origin = is_origin_group g.class in
    if leb last.stop now
    then record { group_id = g.id; time = last.stop; job = close_group is_origin } ∷ []
    else if is_origin
    then []
    else ((if is_once g.class then [] else moving_tasks g (find_window now g.repetitions 0 g.dates))
        ++ ((if ltb now w.stop && not g.is_active
              then record { group_id = g.id; time = w.start; job = activate } ∷ []
              else [])
            ++ record { group_id = g.id; time = w.stop; job = close_window (is_single ws) } ∷ []))

unfoldable pub set_all : ℕ → List Task → Scheduler → Scheduler
set_all now [] s = s
set_all now (t ∷ ts) s = set_all now ts (set_scheduled_task now t s)

unfoldable pub process_group : ℕ → Group → Scheduler → Scheduler
process_group now g s = set_all now (tasks_of now g g.dates) s

-- the groups of `getReadyGroupsOrderByIndex`, one after another
unfoldable pub process_groups : ℕ → List Group → Scheduler → Scheduler
process_groups now [] s = s
process_groups now (g ∷ gs) s = process_groups now gs (process_group now g s)

-- `scheduleAllGroupsTasks`, behind its debounce
unfoldable pub schedule_all_groups_tasks : ℕ → List Group → Scheduler → Scheduler
schedule_all_groups_tasks now gs s =
    schedule_next_task now
      (process_groups now gs (record s { scheduled_tasks = []; task_queue = [] }))

-- `updateGroupDates`: the document that is written. It fails on a group that has no window left, and
-- past the last repetition the numbers that the source writes are negative.
pub data DatesUpdate : Type 0 where
  written : Group → DatesUpdate
  fails negative : DatesUpdate

unfoldable pub with_dates : Group → ℕ → Bool → List Window → DatesUpdate
with_dates g window_index is_active [] = fails
with_dates g window_index is_active (w ∷ ws) =
    if ltb g.repetitions window_index
    then negative
    else written (record g {
      dates = w ∷ ws;
      repetitions = g.repetitions - window_index;
      duration = length g.devices * (w.stop - w.start) * (g.repetitions - window_index + 1);
      is_active = is_active;
    })

unfoldable pub update_group_dates : Group → ℕ → Bool → DatesUpdate
update_group_dates g window_index is_active =
    with_dates g window_index is_active (drop window_index g.dates)

-- `doBecomeUnactiveGroup`
unfoldable pub do_become_unactive_group : Group → DatesUpdate
do_become_unactive_group g = update_group_dates g 0 true

unfoldable pub do_become_active_group : Group → Group
do_become_active_group g = record g { is_active = true }

-- `updateOriginGroupLifetime`
unfoldable pub update_origin_group_lifetime : ℕ → Group → Option Group
update_origin_group_lifetime now g = elim g.dates [
  | [] ↦ none
  | w ∷ _ ↦ some (record g {
    dates = record { start = now; stop = max (now + (w.stop - w.start)) one_hour } ∷ [];
  })
]

-- `deleteGroupWhenAutomationInactive`, given whether the build of the group exists and a device of
-- the group is active for it: the group is deleted, or looked at again in a minute.
pub data Closing : Type 0 where
  deletes : String → Closing
  waits : Task → Closing

unfoldable pub delete_group_when_automation_inactive : ℕ → Group → Bool → Bool → Closing
delete_group_when_automation_inactive now g has_build any_active =
    if has_build && any_active
    then waits (record { group_id = g.id; time = now + one_mn; job = wait_for_automation })
    else deletes g.id
