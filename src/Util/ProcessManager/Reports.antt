-- ===== src/Util/ProcessManager/Reports.antt =====
-- `getStats` and `checkHealth` of lib/util/ProcessManager.js.
use mercury_farm.Base.{
  ℕ, ◌+◌, Bool, true, false, ◌&&◌, none, some, List, [], ◌∷◌, length, ltb, if◌then◌else◌,
}
use mercury_farm.Base.Text.{String}
use mercury_farm.Util.ProcessManager.{State, waiting, starting, running, Process, Manager}

pub record Stats : Type 0 where
  pub total : ℕ
  pub waiting_ids : List String
  pub starting_ids : List String
  pub running_ids : List String

abbrev pub counted : String → State → Stats → Stats
counted id waiting s = record s { waiting_ids = id ∷ s.waiting_ids }
counted id starting s = record s { starting_ids = id ∷ s.starting_ids }
counted id running s = record s { running_ids = id ∷ s.running_ids }

unfoldable pub grouped : ℕ → List Process → Stats
grouped total [] = record { total = total; waiting_ids = []; starting_ids = []; running_ids = [] }
grouped total (p ∷ ps) = counted p.id p.state (grouped total ps)

unfoldable pub get_stats : Manager → Stats
get_stats m = grouped (length m.processes) m.processes

abbrev pub is_starting : State → Bool
is_starting starting = true
is_starting _ = false

-- `now - process.startTime > startupTimeoutMs`, with the start on the other side
abbrev pub is_stuck : ℕ → ℕ → Process → Bool
is_stuck now timeout p = is_starting p.state && ltb (p.start_time + timeout) now

unfoldable pub stuck : ℕ → ℕ → List Process → List String
stuck now timeout [] = []
stuck now timeout (p ∷ ps) =
    let rest = stuck now timeout ps in if is_stuck now timeout p then p.id ∷ rest else rest

unfoldable pub check_health : ℕ → Manager → List String
check_health now m = elim m.startup_timeout [
  | none ↦ []
  | some timeout ↦ stuck now timeout m.processes
]
