-- ===== src/Device/Touch/Service.antt =====
-- lib/units/device/plugins/touch/index.js: how the minitouch service is connected to, what it says first,
-- and how it is ended.
mod Retries
use mercury_farm.Base.{
  ℕ, suc, zero, ◌*◌, Bool, true, false, Option, none, some, List, [], ◌∷◌, ◌==◌, if◌then◌else◌,
}
use mercury_farm.Base.Text.{String, str_eq}
use mercury_farm.Device.Touch.State.{Banner}

-- what opening the socket comes to: it is closed, or there is another error
pub data Attempt : Type 0 where
  opens closes breaks : Attempt

-- `tryConnect`: the waits, and whether it connects; none while an attempt is going on
unfoldable pub try_connect : ℕ → ℕ → List Attempt → List ℕ × Option Bool
try_connect times delay [] = ([], none)
try_connect times delay (opens ∷ attempts) = ([], some true)
try_connect times delay (breaks ∷ attempts) = ([], some false)
try_connect zero delay (closes ∷ attempts) = ([], some false)
try_connect (suc zero) delay (closes ∷ attempts) = ([], some false)
try_connect (suc (suc times)) delay (closes ∷ attempts) =
    let rest = try_connect (suc times) (delay * 2) attempts in (delay ∷ rest.0, rest.1)

-- `_connectService`
unfoldable pub connect_service : List Attempt → List ℕ × Option Bool
connect_service attempts = try_connect 7 100 attempts

-- what waiting for the end of the service after a signal comes to
pub data Killed : Type 0 where
  ends times_out breaks : Killed

pub data Ending : Type 0 where
  sig_term sig_kill ends_output : Ending

abbrev kill_again : Killed → List Ending
kill_again ends = sig_kill ∷ []
kill_again _ = sig_kill ∷ ends_output ∷ []

abbrev kill : Killed → Killed → List Ending
kill ends again = sig_term ∷ []
kill times_out again = sig_term ∷ kill_again again
kill breaks again = sig_term ∷ ends_output ∷ []

-- `_stopService`, of an output that goes on or not; without a banner the process is not known
unfoldable pub stop_service : Bool → Option Banner → Killed → Killed → List Ending
stop_service false banner first again = []
stop_service true none first again = ends_output ∷ []
stop_service true (some b) first again = if b.pid == 0 then ends_output ∷ [] else kill first again

-- a line of the banner, split: its name, and its numbers, which are there
module _ {ℓ} {V : Type ℓ} where
  unfoldable pub read_line : String → String × V → Option V
  read_line name line = if str_eq line.0 name then some line.1 else none

-- `_readBanner`: the version, the limits (the contacts, x, y and the pressure) and the pid
unfoldable pub read_banner : String × ℕ → String × (ℕ × ℕ × ℕ × ℕ) → String × ℕ → Option Banner
read_banner version limits pid = elim (read_line "v" version) [
  | none ↦ none
  | some v ↦ elim (read_line "^" limits) [
    | none ↦ none
    | some l ↦ elim (read_line "$" pid) [
      | none ↦ none
      | some p ↦ some (record { pid = p; max_x = l.1; max_y = l.2; max_pressure = l.3 })
    ]
  ]
]
