-- ===== src/Util/ProcessManager/Calls.antt =====
-- The calls of lib/util/ProcessManager.js one after another.
use mercury_farm.Base.{ℕ, Bool, List, [], ◌∷◌}
use mercury_farm.Base.Text.{String}
use mercury_farm.Util.ProcessManager.{
  State, Process, Manager, create, start, update_terminate_handler, handle_ready, restart, stop,
  begin_remove, finish_remove, set_state, set_timer, clear_timer,
}

-- A removal that no other call comes between.
unfoldable pub remove : String → Manager → Manager
remove id m = finish_remove (begin_remove id m)

-- The calls that change the manager, and the child's messages.
pub data Call : Type 0 where
  creates : String → State → ℕ → Call
  starts : String → Bool → Call
  spawned : String → ℕ → Call
  is_ready wait_is_over stops removes clears_timer : String → Call
  sets_state : String → State → Call
  sets_timer : String → ℕ → Call

unfoldable pub step : ℕ → Call → Manager → Manager
step now (creates id state n) m = (create now id state n m).0
step now (starts id force) m = (start now id force m).0
step now (spawned id child) m = update_terminate_handler id child m
step now (is_ready id) m = (handle_ready id m).0
step now (wait_is_over id) m = (restart now id m).0
step now (stops id) m = (stop id m).0
step now (removes id) m = remove id m
step now (clears_timer id) m = clear_timer id m
step now (sets_state id state) m = set_state now id state m
step now (sets_timer id timer) m = set_timer id timer m

-- calls with their times
unfoldable pub run : List (ℕ × Call) → Manager → Manager
run [] m = m
run ((now, call) ∷ calls) m = run calls (step now call m)

-- `cleanup`, one removal after another
unfoldable pub remove_all : List Process → Manager → Manager
remove_all [] m = m
remove_all (p ∷ ps) m = remove_all ps (remove p.id m)

unfoldable pub cleanup : Manager → Manager
cleanup m = remove_all m.processes m
