-- ===== src/Provider/AdbDevices.antt =====
-- The devices of lib/units/provider/ADBObserver.js: polls, health checks and reconnections. A map is
-- a list of pairs in the order of insertion. The answers of ADB are arguments, and what may come
-- between a request and its answer is a step of its own.
pub mod Tracking
pub mod Told
pub mod Reconnects
pub mod Events
pub mod Reconnection
mod Tests
use text.Mathlib.Text.{find?}
use mercury_farm.Base.{
  ℕ, suc, ◌+◌, Bool, true, false, not, ◌&&◌, ◌||◌, Option, none, some, List, [], ◌∷◌, ◌++◌, map,
  leb, if◌then◌else◌, is_some, length, ◌==◌,
}
use mercury_farm.Base.Text.{String, str_eq, mem_text, field, delete_field}

unfoldable pub is_online : String → Bool
is_online type = str_eq type "device" || str_eq type "emulator"

-- `type` is the state that ADB last gave; `id` tells the object from one made later for its serial
pub record Device : Type 0 where
  pub id : ℕ
  pub type : String
  pub is_stuck : Bool

pub record Attempts : Type 0 where
  pub attempts : ℕ
  pub first_failure_time : ℕ
  pub last_attempt_time : ℕ

pub data Event : Type 0 where
  connects : String → Device → Event
  -- the device, and the type that it had
  updates : String → Device → String → Event
  disconnects : String → Event
  gets_stuck : String → Attempts → Event
  health_check : ℕ → ℕ → Event
  error : Event

pub record Observer : Type 0 where
  pub devices : List (String × Device)
  pub health_attempts : List (String × Attempts)
  pub events : List Event
  -- how many devices were made
  pub created : ℕ
  -- the device whose health check waits for an answer
  pub asked : Option (String × Device)
  -- the serials and the objects whose `reconnect` is going on
  pub reconnecting : List (String × ℕ)
  pub is_polling : Bool
  pub continues : Bool
  pub is_destroyed : Bool

abbrev pub emit : Event → Observer → Observer
emit e s = record s { events = s.events ++ e ∷ [] }

-- `map.set`: in its place, or at the end
unfoldable pub put {ℓ} : {V : Type ℓ} → String → V → List (String × V) → List (String × V)
put key value [] = (key, value) ∷ []
put key value (pair ∷ pairs) =
    let rest = put key value pairs in
    if str_eq pair.0 key then (key, value) ∷ pairs else pair ∷ rest

-- the two branches for an entry of the poll
abbrev pub retyped : String → Device → Device
retyped state d = record d {
  type = state;
  is_stuck = if is_online state then false else d.is_stuck;
}

unfoldable pub entered : String → String → Option Device → Observer → Observer
entered serial state none s =
    let d : Device = record { id = s.created; type = state; is_stuck = false } in
    emit (connects serial d)
      (record s { devices = put serial d s.devices; created = s.created + 1 })
entered serial state (some d) s =
    if str_eq d.type state
    then s
    else emit (updates serial (retyped state d) d.type)
        (record s { devices = put serial (retyped state d) s.devices })

unfoldable pub enter : String × String → Observer → Observer
enter entry s = entered entry.0 entry.1 (field s.devices entry.0) s

unfoldable pub enter_all : List (String × String) → Observer → Observer
enter_all [] s = s
enter_all (entry ∷ entries) s = enter_all entries (enter entry s)

unfoldable pub keys {ℓ} : {V : Type ℓ} → List (String × V) → List String
keys [] = []
keys (pair ∷ pairs) = pair.0 ∷ keys pairs

unfoldable pub disconnect : List String → String → Observer → Observer
disconnect current serial s =
    if mem_text serial current
    then s
    else emit (disconnects serial) (record s {
      devices = delete_field s.devices serial;
      health_attempts = delete_field s.health_attempts serial;
    })

unfoldable pub disconnect_all : List String → List String → Observer → Observer
disconnect_all current [] s = s
disconnect_all current (serial ∷ serials) s =
    disconnect_all current serials (disconnect current serial s)

-- `pollDevices` up to its request, which is not sent in the first case
unfoldable pub poll_starts : Observer → Observer
poll_starts s = if s.is_polling || s.is_destroyed then s else record s { is_polling = true }

-- and from there, given what `getADBDevices` comes to: its entries, or an error
unfoldable pub poll_answered : Option (List (String × String)) → Observer → Observer
poll_answered none s = record (emit error s) { is_polling = false }
poll_answered (some entries) s =
    record (disconnect_all (keys entries) (keys s.devices) (enter_all entries s)) {
      is_polling = false;
    }

abbrev pub max_health_check_attempts : ℕ
max_health_check_attempts = 3

-- `device.serial.includes(':')`
abbrev pub is_network : String → Bool
is_network serial = is_some (find? serial ":")

-- `handleDeviceHealthCheckFailure`, up to the reconnection that it awaits; only that of a network
-- device asks anything
unfoldable pub failed : ℕ → String → Device → Option Attempts → Observer → Observer
failed now serial d none s = record s {
  health_attempts =
      put serial (record { attempts = 1; first_failure_time = now; last_attempt_time = now })
        s.health_attempts;
}
failed now serial d (some a) s =
    let more : Attempts = record a { attempts = a.attempts + 1; last_attempt_time = now } in
    if leb max_health_check_attempts more.attempts
    then emit (gets_stuck serial more) (record s {
      devices = put serial (record d { is_stuck = true }) s.devices;
      health_attempts = delete_field s.health_attempts serial;
      reconnecting =
          if is_network serial && not s.is_destroyed
          then (serial, d.id) ∷ s.reconnecting
          else s.reconnecting;
    })
    else record s { health_attempts = put serial more s.health_attempts }

unfoldable pub health_check_failure : ℕ → String → Device → Observer → Observer
health_check_failure now serial d s = failed now serial d (field s.health_attempts serial) s

abbrev pub is_skipped : Device → Bool
is_skipped d = d.is_stuck || not (is_online d.type)

-- `performHealthChecks` at one device: the request, if it is sent
unfoldable pub ask_of : String → Option Device → Observer → Observer
ask_of serial none s = s
ask_of serial (some d) s = if is_skipped d then s else record s { asked = some (serial, d) }

unfoldable pub ask : String → Observer → Observer
ask serial s =
    if s.is_destroyed || not s.continues then s else ask_of serial (field s.devices serial) s

-- the object as it is now: the one in the map, unless that was made later
unfoldable pub now_of : Device → Option Device → Device
now_of d none = d
now_of d (some d') = if d'.id == d.id then d' else d

-- and the answer, at a time
unfoldable pub answer_to : ℕ → Bool → Option (String × Device) → Observer → Observer
answer_to now answered none s = s
answer_to now answered (some (serial, d)) s =
    if answered
    then record s { health_attempts = delete_field s.health_attempts serial; asked = none }
    else health_check_failure now serial (now_of d (field s.devices serial))
        (record s { asked = none })

unfoldable pub answer : ℕ → Bool → Observer → Observer
answer now answered s = answer_to now answered s.asked s

-- A reconnection that ADB has confirmed with an online state: the object is changed and nothing is
-- emitted. An object that is no longer in the map has no bearing on it.
unfoldable pub reconnected_at : String → ℕ → Option Device → Observer → Observer
reconnected_at serial id none s = s
reconnected_at serial id (some d) s =
    if d.id == id
    then record s {
      devices = put serial (record d { type = "device"; is_stuck = false }) s.devices;
    }
    else s

unfoldable pub reconnected : String → ℕ → Observer → Observer
reconnected serial id s = reconnected_at serial id (field s.devices serial) s

unfoldable pub is_reconnecting : String → ℕ → List (String × ℕ) → Bool
is_reconnecting serial id [] = false
is_reconnecting serial id (pair ∷ pairs) =
    (str_eq pair.0 serial && pair.1 == id) || is_reconnecting serial id pairs

unfoldable pub settle : String → ℕ → List (String × ℕ) → List (String × ℕ)
settle serial id [] = []
settle serial id (pair ∷ pairs) =
    let rest = settle serial id pairs in
    if str_eq pair.0 serial && pair.1 == id then pairs else pair ∷ rest

abbrev pub is_state_online : Option String → Bool
is_state_online none = false
is_state_online (some state) = is_online state

-- none is an error of one of the commands
abbrev pub lists_online : String → Option (List (String × String)) → Bool
lists_online serial none = false
lists_online serial (some entries) = is_state_online (field entries serial)

-- `reconnect`, once its commands are answered, the last one with the devices
unfoldable pub reconnect_answered :
    String → ℕ → Option (List (String × String)) → Observer → Observer
reconnect_answered serial id entries s =
    let after : Observer = record s { reconnecting = settle serial id s.reconnecting } in
    if is_reconnecting serial id s.reconnecting
    then (if lists_online serial entries then reconnected serial id after else after)
    else s

unfoldable pub destroy : Observer → Observer
destroy s = record s { devices = []; health_attempts = []; continues = false; is_destroyed = true }

unfoldable pub new : Observer
new = record {
  devices = [];
  health_attempts = [];
  events = [];
  created = 0;
  asked = none;
  reconnecting = [];
  is_polling = false;
  continues = true;
  is_destroyed = false;
}

-- what a poll, a round of health checks or a reconnection does at a time
pub data Action : Type 0 where
  polls : Action
  poll_answers : Option (List (String × String)) → Action
  asks : String → Action
  answers : ℕ → Bool → Action
  checks_end : ℕ → ℕ → Action
  reconnect_answers : String → ℕ → Option (List (String × String)) → Action

unfoldable pub step : Action → Observer → Observer
step polls s = poll_starts s
step (poll_answers entries) s = poll_answered entries s
step (asks serial) s = ask serial s
step (answers now answered) s = answer now answered s
step (checks_end ok bad) s = emit (health_check ok bad) s
step (reconnect_answers serial id entries) s = reconnect_answered serial id entries s

unfoldable pub run : List Action → Observer → Observer
run [] s = s
run (a ∷ actions) s = run actions (step a s)
