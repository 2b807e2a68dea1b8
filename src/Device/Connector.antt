-- ===== src/Device/Connector.antt =====
-- lib/units/base-device/support/connector.js: the remote connection of a device, as a state machine
-- that overlapping requests share. What the handlers and the database come to is in the steps.
pub mod Sharing
mod Tests
use Prim.Native.String.{◌++◌ as append}
use mercury_farm.Base.{
  ℕ, ◌+◌, Bool, true, false, not, ◌&&◌, ◌||◌, Option, none, some, List, [], ◌∷◌, ◌++◌,
  if◌then◌else◌,
}
use mercury_farm.Base.Text.{String, str_eq}

pub data DeviceType : Type 0 where
  android ios tizen : DeviceType

pub record Options : Type 0 where
  pub device_type : DeviceType
  -- of a storage URL: the host between its slashes, if it has one
  pub storage_host : Option (Option String)
  pub url_without_adb_port : Bool

pub data Sent : Type 0 where
  okay : String → Option String → Sent
  fail : String → String → Sent
  connect_started : String → String → Sent
  connect_stopped : String → Sent

pub record Connector : Type 0 where
  pub started : Bool
  pub url : Option String
  -- of `startPromise`: the channel that owns the start, and those that wait for it
  pub start_promise : Option (String × List String)
  -- how often `handlers.start` was called
  pub starts : ℕ
  pub sent : List Sent

abbrev pub push : Sent → Connector → Connector
push x s = record s { sent = s.sent ++ x ∷ [] }

unfoldable pub reply_started : String → String → Connector → Connector
reply_started channel url s = push (connect_started channel url) (push (okay channel (some url)) s)

unfoldable pub reply_all : List String → String → Connector → Connector
reply_all [] url s = s
reply_all (channel ∷ channels) url s = reply_all channels url (reply_started channel url s)

-- `this.started && this.url`
abbrev pub ready : Bool → Option String → Option String
ready true (some url) = if str_eq url "" then none else some url
ready true none = none
ready false url = none

unfoldable pub begun : String → Option (String × List String) → Connector → Connector
begun channel none s = record s { start_promise = some (channel, []); starts = s.starts + 1 }
begun channel (some (owner, waiting)) s = record s {
  start_promise = some (owner, waiting ++ channel ∷ []);
}

unfoldable pub start_at : String → Option String → Connector → Connector
start_at channel (some url) s = reply_started channel url s
start_at channel none s = begun channel s.start_promise s

unfoldable pub start : String → Connector → Connector
start channel s = start_at channel (ready s.started s.url) s

unfoldable pub url_at : String → Option String → Connector → Connector
url_at channel (some url) s = push (okay channel (some url)) s
url_at channel none s = start channel s

unfoldable pub get_url : String → Connector → Connector
get_url channel s = url_at channel (ready s.started s.url) s

-- The URL of an Android device, given the text of its port in the database, if it has one.
unfoldable pub with_port : Options → String → Option (Option String) → Option String → Option String
with_port o url (some (some host)) (some port) = some (append (append host ":") port)
with_port o url (some none) (some port) = none
with_port o url none port =
    some (if o.url_without_adb_port then url else "unavailable. Contact administrator")
with_port o url (some host) none =
    some (if o.url_without_adb_port then url else "unavailable. Contact administrator")

-- where there is no device, or no host, an error is thrown
unfoldable pub android_url : Options → String → Option (Option String) → Option String
android_url o url none = none
android_url o url (some port) = with_port o url o.storage_host port

unfoldable pub final_url : Options → DeviceType → String → Option (Option String) → Option String
final_url o android url device = android_url o url device
final_url o ios url device = some url
final_url o tizen url device = some url

-- what `startPromise` comes to, given what `handlers.start` and the database come to
unfoldable pub start_result : Options → Option String → Option (Option String) → Option String
start_result o none device = none
start_result o (some url) device = final_url o o.device_type url device

unfoldable pub started_with : Option String → Option (String × List String) → Connector → Connector
started_with result none s = s
started_with none (some (owner, waiting)) s = record s { start_promise = none }
started_with (some url) (some (owner, waiting)) s =
    reply_all waiting url (record (reply_started owner url (record s { url = some url })) {
      started = true;
      start_promise = none;
    })

unfoldable pub start_ends : Option String → Connector → Connector
start_ends result s = started_with result s.start_promise s

-- `stop` from where `handlers.stop` has come to an end, with the text of an error
unfoldable pub stop_ends : String → Option String → Connector → Connector
stop_ends channel none s =
    push (connect_stopped channel) (push (okay channel none) (record s { started = false }))
stop_ends channel (some text) s = push (fail channel text) s

pub data Step : Type 0 where
  starts_on : String → Step
  asks_url : String → Step
  start_settles : Option String → Option (Option String) → Step
  stop_settles : String → Option String → Step

unfoldable pub step : Options → Step → Connector → Connector
step o (starts_on channel) s = start channel s
step o (asks_url channel) s = get_url channel s
step o (start_settles url device) s = start_ends (start_result o url device) s
step o (stop_settles channel error) s = stop_ends channel error s

unfoldable pub run : Options → List Step → Connector → Connector
run o [] s = s
run o (e ∷ steps) s = run o steps (step o e s)

unfoldable pub new : Connector
new = record { started = false; url = none; start_promise = none; starts = 0; sent = [] }
