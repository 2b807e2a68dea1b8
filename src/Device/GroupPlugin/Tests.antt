-- ===== src/Device/GroupPlugin/Tests.antt =====
-- A device that is booked, asked for by another group, and left when its time is over.
use mercury_farm.Base.{ℕ, ◌≡◌, refl, false, none, some, List, [], ◌∷◌, arith}
use mercury_farm.Device.GroupPlugin.{
  Owner, Options, join_group, leave_group, okay, Plugin, passes, Event, group_message, timer, run,
  new, on_group, step, join, join_valid, enter, registered, sync_automation_alive,
  check_before_action, rejoin, check_channel, on_timeouts, on_timeout, leave, left_from,
  stop_automation_alive,
}
use mercury_farm.Device.GroupPlugin.Ownership.{run-Inv}
use mercury_farm.Device.GroupPlugin.Owned.{Inv}
use mercury_farm.Base.Text.{field, delete_field}
use mercury_farm.Wire.ChannelManager.{
  register, check, checked, find, change, unregister, unregistered,
}

abbrev options : Options
options = record { group_timeout = 900; solo_channel = "solo" }

abbrev ann : Owner
ann = record { group = "g1"; email = "ann"; name = "Ann" }

abbrev bob : Owner
bob = record { group = "g2"; email = "bob"; name = "Bob" }

abbrev day : List (ℕ × Event)
day =
    (10, group_message passes "tx1" (some ann) 0 none [])
    ∷ (20, group_message passes "tx2" (some bob) 0 none [])
    ∷ (1000, timer)
    ∷ []

sent_that_day :
    (run options day new).sent
    ≡ join_group ann none 0 ∷ okay "tx1" ∷ okay "tx2" ∷ leave_group ann "automatic_timeout" ∷ []
unfolding run step new on_group join join_valid enter registered sync_automation_alive
    check_before_action rejoin check_channel on_timeouts on_timeout leave left_from
    stop_automation_alive register check checked find change unregister unregistered field
    delete_field
sent_that_day = refl

run-Inv_example : Inv options (run options day new)
run-Inv_example = run-Inv options day (omega arith)

abbrev owned_by_ann : Plugin
owned_by_ann = record {
  current_group = some ann;
  current_usage = none;
  alive_timer = false;
  channels = record { store = []; channels = []; timeouts = [] };
  subscribed = "g1" ∷ [];
  sent = [];
  emitted = [];
}
