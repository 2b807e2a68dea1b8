-- ===== src/Device/GroupPlugin.antt =====
-- lib/units/base-device/plugins/group.js: who owns a device. The plugin's fields, the channel manager
-- that it shares with the router, its subscriptions, what it sends and what it emits are one state;
-- the current time is an argument. What an error carries but its text is left out.
pub mod Channels
pub mod Ownership
pub mod Owned
pub mod Joins
pub mod Refusal
mod Tests
use mercury_farm.Base.{
  ℕ, ◌+◌, ◌*◌, Bool, true, false, not, ◌&&◌, Option, none, some, List, [], ◌∷◌, ◌++◌, ◌==◌,
  if◌then◌else◌, length, drop,
}
use mercury_farm.Base.Text.{String, str_eq}
use mercury_farm.Wire.ChannelManager.{
  ChannelManager, register, unregister, update_timeout, get_timeout, keepalive, check,
}

-- a group as a message names it
pub record Owner : Type 0 where
  pub group : String
  pub email : String
  pub name : String

-- `solo_channel` is `solo.channel`
pub record Options : Type 0 where
  pub group_timeout : ℕ
  pub solo_channel : String

-- what is pushed: to everybody, or, of replies, to a channel
pub data Sent : Type 0 where
  automation_alive : String → Sent
  status_change : Option ℕ → Sent
  join_group : Owner → Option String → ℕ → Sent
  leave_group : Owner → String → Sent
  okay : String → Sent
  fail : String → String → Sent

pub data Emitted : Type 0 where
  joined : Owner → List String → Emitted
  -- `emit('leave', this.currentGroup)`, after the field was set to null
  left : Option Owner → Emitted
  autojoined : Option String → Bool → Emitted

pub record Plugin : Type 0 where
  pub current_group : Option Owner
  pub current_usage : Option String
  pub alive_timer : Bool
  pub channels : ChannelManager
  pub subscribed : List String
  pub sent : List Sent
  pub emitted : List Emitted

abbrev pub push : Sent → Plugin → Plugin
push x p = record p { sent = p.sent ++ x ∷ [] }

abbrev pub emit : Emitted → Plugin → Plugin
emit x p = record p { emitted = p.emitted ++ x ∷ [] }

abbrev pub quarter_minutes : ℕ
quarter_minutes = 300 * 1000 * 3

-- a text that is there and not empty
abbrev pub given : Option String → Option String
given none = none
given (some text) = if str_eq text "" then none else some text

abbrev pub is_automation : Option String → Bool
is_automation none = false
is_automation (some usage) = str_eq usage "automation"

-- `sendAlive`
unfoldable pub send_alive_to : Option Owner → Plugin → Plugin
send_alive_to none p = p
send_alive_to (some g) p = push (automation_alive g.group) p

abbrev pub in_run : Option Owner → Option String → Bool
in_run none usage = false
in_run (some g) usage = is_automation usage

unfoldable pub sync_automation_alive : Plugin → Plugin
sync_automation_alive p =
    if not (in_run p.current_group p.current_usage)
    then record p { alive_timer = false }
    else if p.alive_timer
    then p
    else record (send_alive_to p.current_group p) { alive_timer = true }

unfoldable pub stop_automation_alive : Plugin → Plugin
stop_automation_alive p = record p { alive_timer = false }

abbrev pub nonzero : Option ℕ → Option ℕ
nonzero none = none
nonzero (some n) = if n == 0 then none else some n

abbrev pub with_usage : Option String → Plugin → Plugin
with_usage none p = p
with_usage (some usage) p = sync_automation_alive (record p { current_usage = some usage })

unfoldable pub extend : Owner → Option String → Plugin → Plugin
extend g usage p =
    let used = with_usage usage p in
    let channels = update_timeout g.group quarter_minutes used.channels in
    push (status_change (nonzero (get_timeout g.group channels)))
      (record used { channels = channels })

-- `join` on a device that is in the group `g`: another group is an error, which `join` catches.
unfoldable pub rejoin : Owner → Owner → Option String → Plugin → Plugin
rejoin g new_group usage p = if str_eq g.group new_group.group then extend g usage p else p

-- `join` on a free device: after an error of `register` the fields stay as they are set.
unfoldable pub registered :
    Owner → ℕ → Option String → List String → Plugin → Option ChannelManager → Plugin
registered g timeout usage keys p none = p
registered g timeout usage keys p (some channels) = sync_automation_alive (
    push (join_group g usage timeout) (
      emit (joined g keys)
        (record p { channels = channels; subscribed = p.subscribed ++ g.group ∷ [] })))

abbrev pub or_default : ℕ → ℕ → ℕ
or_default n default = if n == 0 then default else n

unfoldable pub enter : Options → ℕ → Owner → ℕ → Option String → List String → Plugin → Plugin
enter o now g timeout usage keys p =
    registered g timeout usage keys
      (record p { current_group = some g; current_usage = given usage })
      (register now g.group (or_default timeout o.group_timeout) (some o.solo_channel) p.channels)

unfoldable pub join_valid :
    Options → ℕ → Owner → ℕ → Option String → List String → Plugin → Option Owner → Plugin
join_valid o now new_group timeout usage keys p none = enter o now new_group timeout usage keys p
join_valid o now new_group timeout usage keys p (some g) = rejoin g new_group (given usage) p

-- `join`, which returns whatever happens
unfoldable pub join : Options → ℕ → Option Owner → ℕ → Option String → List String → Plugin → Plugin
join o now none timeout usage keys p = p
join o now (some g) timeout usage keys p =
    if str_eq g.group "" then p else join_valid o now g timeout usage keys p p.current_group

abbrev pub without : String → List String → List String
without channel [] = []
without channel (c ∷ cs) = if str_eq c channel then without channel cs else c ∷ without channel cs

-- `leave`; none is the NoGroupError
unfoldable pub left_from : Owner → String → Plugin → Plugin
left_from g reason p =
    let told = stop_automation_alive (push (leave_group g reason) p) in
    emit (left none) (record told {
      channels = unregister g.group told.channels;
      subscribed = without g.group told.subscribed;
      current_group = none;
      current_usage = none;
    })

abbrev pub leave_at : String → Plugin → Option Owner → Option Plugin
leave_at reason p none = none
leave_at reason p (some g) = some (left_from g reason p)

unfoldable pub leave : String → Plugin → Option Plugin
leave reason p = leave_at reason p p.current_group

abbrev pub or_same : Plugin → Option Plugin → Plugin
or_same p none = p
or_same p (some q) = q

-- what the check before an action says
pub data Verdict : Type 0 where
  passes declines : Verdict
  rejects : String → Verdict

-- `checkBeforeAction`: the state, and whether to go on
unfoldable pub check_before_action : Verdict → String → Plugin → Plugin × Bool
check_before_action passes channel p = (p, true)
check_before_action declines channel p = (p, false)
check_before_action (rejects text) channel p = (push (fail channel text) p, false)

unfoldable pub on_group :
    Options
    → ℕ
    → Verdict
    → String
    → Option Owner
    → ℕ
    → Option String
    → List String
    → Plugin
    → Plugin
on_group o now verdict channel owner timeout usage keys p =
    let (checked, goes_on) = check_before_action verdict channel p in
    if goes_on then push (okay channel) (join o now owner timeout usage keys checked) else checked

unfoldable pub on_auto_group : Options → ℕ → Option Owner → Option String → Plugin → Plugin
on_auto_group o now owner identifier p =
    emit (autojoined identifier true) (join o now owner 0 identifier [] p)

-- A device that is in no group is what is wanted, too.
unfoldable pub on_ungroup : Verdict → String → Plugin → Plugin
on_ungroup verdict channel p =
    let (checked, goes_on) = check_before_action verdict channel p in
    if goes_on
    then push (okay channel) (or_same checked (leave "ungroup_request" checked))
    else checked

abbrev pub is_group : Option Owner → String → Bool
is_group none channel = false
is_group (some g) channel = str_eq channel g.group

-- the channel manager's `timeout`
unfoldable pub on_timeout : String → Plugin → Plugin
on_timeout channel p =
    if is_group p.current_group channel then or_same p (leave "automatic_timeout" p) else p

unfoldable pub on_timeouts : List String → Plugin → Plugin
on_timeouts [] p = p
on_timeouts (channel ∷ channels) p = on_timeouts channels (on_timeout channel p)

-- The timer of the group's channel: a check, and the events that it emits. `unregister` clears it, so
-- on a device in no group there is none.
unfoldable pub check_channel : ℕ → Plugin → Option Owner → Plugin
check_channel now p none = p
check_channel now p (some g) =
    let channels = check now g.group p.channels in
    on_timeouts (drop (length p.channels.timeouts) channels.timeouts)
      (record p { channels = channels })

unfoldable pub on_exit : Plugin → Plugin
on_exit p = or_same p (leave "device_absent" p)

pub data Event : Type 0 where
  group_message : Verdict → String → Option Owner → ℕ → Option String → List String → Event
  auto_group_message : Option Owner → Option String → Event
  ungroup_message : Verdict → String → Event
  -- the router keeps the channel of a message alive
  traffic : String → Event
  timer alive_tick exits : Event

unfoldable pub step : Options → ℕ → Event → Plugin → Plugin
step o now (group_message verdict channel owner timeout usage keys) p =
    on_group o now verdict channel owner timeout usage keys p
step o now (auto_group_message owner identifier) p = on_auto_group o now owner identifier p
step o now (ungroup_message verdict channel) p = on_ungroup verdict channel p
step o now (traffic channel) p = record p { channels = keepalive now channel p.channels }
step o now timer p = check_channel now p p.current_group
step o now alive_tick p = if p.alive_timer then send_alive_to p.current_group p else p
step o now exits p = on_exit p

-- events with their times
unfoldable pub run : Options → List (ℕ × Event) → Plugin → Plugin
run o [] p = p
run o ((now, e) ∷ es) p = run o es (step o now e p)

unfoldable pub new : Plugin
new = record {
  current_group = none;
  current_usage = none;
  alive_timer = false;
  channels = record { store = []; channels = []; timeouts = [] };
  subscribed = [];
  sent = [];
  emitted = [];
}
