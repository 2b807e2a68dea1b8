-- ===== src/Wire/ChannelManager.antt =====
-- lib/wire/channelmanager.js: channels that end when they are not used for some time. A channel is
-- an object that its id and its alias share, so the objects are a store and the fields of `channels`
-- name them by number. The current time is an argument, and emitted events are listed.
pub mod Expiry
mod Tests
use mercury_farm.Base.{
  ℕ, zero, suc, ◌+◌, ◌-◌, Bool, true, false, Option, none, some, List, [], ◌∷◌, ◌++◌, length,
  get_elem?, is_some, min, set, ltb, leb, if◌then◌else◌,
}
use mercury_farm.Base.Text.{String, field, set_field, delete_field}

-- `timer` is the delay that a check was scheduled with.
pub record Channel : Type 0 where
  pub timeout : ℕ
  pub alias : Option String
  pub last_activity : ℕ
  pub timer : Option ℕ

pub record ChannelManager : Type 0 where
  pub store : List Channel
  pub channels : List (String × ℕ)
  pub timeouts : List String

unfoldable pub new : ChannelManager
new = record { store = []; channels = []; timeouts = [] }

-- the object of an id
abbrev pub object : ChannelManager → Option ℕ → Option Channel
object m none = none
object m (some k) = get_elem? m.store k

unfoldable pub find : String → ChannelManager → Option Channel
find id m = object m (field m.channels id)

abbrev pub put_at : (Channel → Channel) → ChannelManager → ℕ → Option Channel → ChannelManager
put_at f m k none = m
put_at f m k (some c) = record m { store = set m.store k (f c) }

abbrev pub change_at : (Channel → Channel) → ChannelManager → Option ℕ → ChannelManager
change_at f m none = m
change_at f m (some k) = put_at f m k (get_elem? m.store k)

unfoldable pub change : String → (Channel → Channel) → ChannelManager → ChannelManager
change id f m = change_at f m (field m.channels id)

abbrev pub without : Option String → List (String × ℕ) → List (String × ℕ)
without none channels = channels
without (some alias) channels = delete_field channels alias

unfoldable pub unregistered : String → ChannelManager → Option Channel → ChannelManager
unregistered id m none = m
unregistered id m (some c) =
    let cleared = change id (λ x. record x { timer = none }) m in
    record cleared { channels = without c.alias (delete_field m.channels id) }

unfoldable pub unregister : String → ChannelManager → ChannelManager
unregister id m = unregistered id m (find id m)

abbrev pub max_32_int : ℕ
max_32_int = 2147483647

unfoldable pub checked : ℕ → String → ChannelManager → Option Channel → ChannelManager
checked now id m none = m
checked now id m (some c) =
    let gone = unregister id m in
    if leb c.timeout (now - c.last_activity)
    then record gone { timeouts = m.timeouts ++ id ∷ [] }
    else if ltb 1 c.timeout
    then change id
        (λ x. record x { timer = some (min (c.timeout - (now - c.last_activity)) max_32_int) }) m
    else m

unfoldable pub check : ℕ → String → ChannelManager → ChannelManager
check now id m = checked now id m (find id m)

abbrev taken : ChannelManager → Option String → Bool
taken m none = false
taken m (some alias) = is_some (field m.channels alias)

abbrev with_alias : Option String → ℕ → List (String × ℕ) → List (String × ℕ)
with_alias none k channels = channels
with_alias (some alias) k channels = set_field channels alias k

-- `register`; none is the error on an alias that is taken.
unfoldable pub register : ℕ → String → ℕ → Option String → ChannelManager → Option ChannelManager
register now id timeout alias m =
    if taken m alias
    then none
    else some (
        check now id (record m {
          store =
              m.store
              ++ record { timeout = timeout; alias = alias; last_activity = now; timer = none }
                ∷ [];
          channels = set_field (with_alias alias (length m.store) m.channels) id (length m.store);
        }))

unfoldable pub keepalive : ℕ → String → ChannelManager → ChannelManager
keepalive now id m = change id (λ x. record x { last_activity = now }) m

unfoldable pub update_timeout : String → ℕ → ChannelManager → ChannelManager
update_timeout id timeout m = change id (λ x. record x { timeout = x.timeout + timeout }) m

abbrev timeout_of : Option Channel → Option ℕ
timeout_of none = none
timeout_of (some c) = some c.timeout

unfoldable pub get_timeout : String → ChannelManager → Option ℕ
get_timeout id m = timeout_of (find id m)
