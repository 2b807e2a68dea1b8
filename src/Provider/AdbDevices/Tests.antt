-- ===== src/Provider/AdbDevices/Tests.antt =====
-- The observer of lib/units/provider/ADBObserver.js on small inputs.
use mercury_farm.Base.{◌≡◌, refl, ◌⊎◌, is_some, true, false, none, some, List, [], ◌∷◌}
use mercury_farm.Base.Text.{String, field, delete_field}
use mercury_farm.Provider.AdbDevices.{
  Device, connects, Observer, new, Action, polls, poll_answers, asks, answers, checks_end,
  reconnect_answers, run, is_network, ask, ask_of, answer, answer_to, now_of, health_check_failure,
  failed, reconnect_answered, reconnected_at, is_reconnecting, settle, is_online, step,
  poll_answered, reconnected, poll_starts, enter_all, enter, entered, keys, disconnect_all,
  disconnect, put,
}
use mercury_farm.Provider.AdbDevices.Tracking.{listed, type_of, poll-type_of}
use mercury_farm.Provider.AdbDevices.Told.{known, told, tell}
use mercury_farm.Provider.AdbDevices.Events.{run-known}
use mercury_farm.Provider.AdbDevices.Reconnection.{reconnected-is_silent}

abbrev phone : Device
phone = record { id = 0; type = "offline"; is_stuck = true }

abbrev silent : Observer
silent = record new {
  devices = ("10.0.0.7:5555", phone) ∷ [];
  events = connects "10.0.0.7:5555" phone ∷ [];
  created = 1;
}

abbrev listing : List (String × String)
listing = ("a", "device") ∷ ("b", "offline") ∷ ("a", "unauthorized") ∷ []

abbrev device : String
device = "10.0.0.7:5555"

abbrev history : List Action
history =
    polls
    ∷ poll_answers (some ((device, "device") ∷ []))
    ∷ asks device
    ∷ answers 5 false
    ∷ asks device
    ∷ answers 6 false
    ∷ asks device
    ∷ poll_answers (some ((device, "offline") ∷ []))
    ∷ answers 7 false
    ∷ reconnect_answers device 0 (some ((device, "device") ∷ []))
    ∷ checks_end 0 3
    ∷ poll_answers none
    ∷ []

poll-type_of_example : type_of "a" (poll_answered (some listing) new) ≡ listed "a" none listing
poll-type_of_example = poll-type_of listing new "a"

run-known_example :
    (known device (run history new) ≡ type_of device (run history new))
    ⊎ ((is_network device ≡ true)
        × (type_of device (run history new) ≡ some "device")
        × (is_some (known device (run history new)) ≡ true))
run-known_example = run-known history device

-- the device was told of as online, then as offline, and has come back since
known_test : known device (run history new) ≡ some "offline"
unfolding run step new poll_starts poll_answered enter_all enter entered keys disconnect_all
    disconnect put field ask ask_of answer answer_to now_of health_check_failure failed
    reconnect_answered reconnected reconnected_at is_reconnecting settle is_online delete_field told
    tell
known_test = refl

type_of_test : type_of device (run history new) ≡ some "device"
unfolding run step new poll_starts poll_answered enter_all enter entered keys disconnect_all
    disconnect put field ask ask_of answer answer_to now_of health_check_failure failed
    reconnect_answered reconnected reconnected_at is_reconnecting settle is_online delete_field told
    tell
type_of_test = refl

reconnected-is_silent_example :
    type_of "10.0.0.7:5555" (
        poll_answered
          (some (("10.0.0.7:5555", "device") ∷ []))
          (reconnected "10.0.0.7:5555" 0 silent))
      ≡ some "device"
    × known "10.0.0.7:5555" (
        poll_answered
          (some (("10.0.0.7:5555", "device") ∷ []))
          (reconnected "10.0.0.7:5555" 0 silent))
      ≡ known "10.0.0.7:5555" silent
unfolding field
reconnected-is_silent_example = reconnected-is_silent "10.0.0.7:5555" phone silent refl

listed_test :
    type_of "a" (run (polls ∷ poll_answers (some (("a", "device") ∷ [])) ∷ []) new) ≡ some "device"
unfolding run step new poll_starts poll_answered enter_all enter entered keys disconnect_all
    disconnect put field
listed_test = refl
