-- ===== src/Util/ProcessManager.antt =====
-- lib/util/ProcessManager.js: processes by their ids, and the pool of ports that they hold. The
-- context of a process, which only the callbacks read, and the log are left out. What a call awaits
-- splits it into steps; a child process is a number, given by `spawn`.
pub mod Calls
pub mod Reports
pub mod Ports
pub mod Twice
pub mod Exits
pub mod Health
mod Tests
use mercury_farm.Base.{
  ℕ, zero, suc, ◌+◌, ◌-◌, Bool, true, false, not, ◌&&◌, ◌||◌, Option, none, some, List, [], ◌∷◌,
  ◌++◌, length, take, drop, ltb, leb, ◌==◌, if◌then◌else◌, is_some,
}
use mercury_farm.Base.Text.{String, str_eq}

-- ResourcePool
unfoldable pub allocate : ℕ → List ℕ → Option (List ℕ × List ℕ)
allocate count available =
    if ltb (length available) count then none else some (take count available, drop count available)

unfoldable pub release : List ℕ → List ℕ → List ℕ
release resources available = available ++ resources

pub data State : Type 0 where
  waiting starting running : State

pub record Process : Type 0 where
  pub id : String
  pub state : State
  pub start_time : ℕ
  pub resources : List ℕ
  pub timer : Option ℕ
  pub expected_stop : Bool
  pub terminate_handler : Option ℕ

-- A removal that awaits `stop` holds the id and, of its process, the resources, which nothing changes.
pub record Removal : Type 0 where
  pub id : String
  pub resources : List ℕ

-- `processes` is a map in the order of insertion; `startup_timeout` is `healthCheckConfig`.
pub record Manager : Type 0 where
  pub processes : List Process
  pub resource_pool : Option (List ℕ)
  pub startup_timeout : Option ℕ
  pub removing : List Removal

unfoldable pub find : String → List Process → Option Process
find id [] = none
find id (p ∷ ps) = if str_eq p.id id then some p else find id ps

unfoldable pub update : String → (Process → Process) → List Process → List Process
update id f [] = []
update id f (p ∷ ps) = let rest = update id f ps in if str_eq p.id id then f p ∷ ps else p ∷ rest

unfoldable pub delete : String → List Process → List Process
delete id [] = []
delete id (p ∷ ps) = let rest = delete id ps in if str_eq p.id id then ps else p ∷ rest

unfoldable pub has : String → Manager → Bool
has id m = is_some (find id m.processes)

abbrev pub change : String → (Process → Process) → Manager → Manager
change id f m = record m { processes = update id f m.processes }

-- The resources that `create` takes and the pool that is left; none is the failure.
abbrev pub claimed : Option (List ℕ × List ℕ) → Option (List ℕ × Option (List ℕ))
claimed none = none
claimed (some (taken, left)) = some (taken, some left)

unfoldable pub claim : Option (List ℕ) → ℕ → Option (List ℕ × Option (List ℕ))
claim none count = some ([], none)
claim (some available) zero = some ([], some available)
claim (some available) (suc n) = claimed (allocate (suc n) available)

abbrev pub new_process : ℕ → String → State → List ℕ → Process
new_process now id state resources = record {
  id = id;
  state = state;
  start_time = now;
  resources = resources;
  timer = none;
  expected_stop = false;
  terminate_handler = none;
}

unfoldable pub added :
    ℕ → String → State → Manager → Option (List ℕ × Option (List ℕ)) → Manager × Bool
added now id state m none = (m, false)
added now id state m (some (resources, pool)) = (
  record m {
    processes = m.processes ++ new_process now id state resources ∷ [];
    resource_pool = pool;
  },
  true,
)

unfoldable pub create : ℕ → String → State → ℕ → Manager → Manager × Bool
create now id initial_state resource_count m =
    if has id m
    then (m, false)
    else added now id initial_state m (claim m.resource_pool resource_count)

-- how far a call of `start` has come: its promise is resolved, or a child is to be spawned
pub data Starting : Type 0 where
  resolved : Bool → Starting
  spawns : Starting

abbrev pub is_running : State → Bool
is_running running = true
is_running _ = false

abbrev pub as_starting : ℕ → Process → Process
as_starting now p = record p {
  timer = none;
  expected_stop = false;
  state = starting;
  start_time = now;
}

unfoldable pub started : ℕ → String → Bool → Manager → Option Process → Manager × Starting
started now id force m none = (m, resolved false)
started now id force m (some p) =
    if not force && is_running p.state
    then (m, resolved true)
    else (change id (as_starting now) m, spawns)

unfoldable pub start : ℕ → String → Bool → Manager → Manager × Starting
start now id force m = started now id force m (find id m.processes)

-- the child has been spawned
unfoldable pub update_terminate_handler : String → ℕ → Manager → Manager
update_terminate_handler id child m = change id (λ p. record p { terminate_handler = some child }) m

-- `handleReady`
unfoldable pub handle_ready : String → Manager → Manager × Bool
handle_ready id m =
    (change id (λ p. record p { timer = none; state = running; expected_stop = false }) m, has id m)

-- the child's end: by a signal, or with a code
pub data Exit : Type 0 where
  signalled : Exit
  exited : ℕ → Exit

-- what its listener does: it resolves the promise, or starts the process again in two seconds
pub data Reaction : Type 0 where
  settles : Bool → Reaction
  restarts : Reaction

unfoldable pub handle_exit_error : String → Manager → Reaction
handle_exit_error id m = if has id m then restarts else settles false

abbrev expects_stop : Option Process → Bool
expects_stop none = false
expects_stop (some p) = p.expected_stop

unfoldable pub on_exit : String → Exit → Manager → Reaction
on_exit id signalled m = settles false
on_exit id (exited code) m =
    if code == 0 && expects_stop (find id m.processes) then settles true else handle_exit_error id m

-- when the two seconds are over
unfoldable pub restart : ℕ → String → Manager → Manager × Starting
restart now id m = if has id m then start now id true m else (m, resolved false)

abbrev handler_of : Option Process → Option ℕ
handler_of none = none
handler_of (some p) = p.terminate_handler

-- the child that is killed, if there is one
abbrev pub stopping : Process → Process
stopping p = record p { expected_stop = true }

unfoldable pub stop : String → Manager → Manager × Option ℕ
stop id m = (change id stopping m, handler_of (find id m.processes))

-- `remove` up to its `await`
unfoldable pub begun : String → Manager → Option Process → Manager
begun id m none = m
begun id m (some p) = record (stop id m).0 {
  removing = m.removing ++ record { id = id; resources = p.resources } ∷ [];
}

unfoldable pub begin_remove : String → Manager → Manager
begin_remove id m = begun id m (find id m.processes)

unfoldable pub returned : List ℕ → Option (List ℕ) → Option (List ℕ)
returned resources none = none
returned resources (some available) = some (release resources available)

-- The rest of it, for the removal that has waited longest. Its timer goes with the process.
unfoldable pub finished : Manager → List Removal → Manager
finished m [] = m
finished m (r ∷ rs) = record m {
  processes = delete r.id m.processes;
  resource_pool = returned r.resources m.resource_pool;
  removing = rs;
}

unfoldable pub finish_remove : Manager → Manager
finish_remove m = finished m m.removing

abbrev fresh_time : ℕ → State → ℕ → ℕ
fresh_time now running old = old
fresh_time now _ old = now

unfoldable pub set_state : ℕ → String → State → Manager → Manager
set_state now id state m =
    change id
      (λ p. record p {
        timer = none;
        state = state;
        start_time = fresh_time now state p.start_time;
      })
      m

unfoldable pub set_timer : String → ℕ → Manager → Manager
set_timer id timer m = change id (λ p. record p { timer = some timer }) m

unfoldable pub clear_timer : String → Manager → Manager
clear_timer id m = change id (λ p. record p { timer = none }) m
