-- ===== src/Wire/ChannelManager/Tests.antt =====
-- A channel with an alias.
use mercury_farm.Base.{◌+◌, ◌≤◌, ◌<◌, ◌≡◌, ◌⊎◌, refl, some, [], ◌∷◌, arith}
use mercury_farm.Base.Text.{field}
use mercury_farm.Wire.ChannelManager.{
  Channel, ChannelManager, new, register, check, checked, find, change,
}
use mercury_farm.Wire.ChannelManager.Expiry.{Ended, Rearmed, check_ends_or_rearms}

abbrev channel : Channel
channel = record { timeout = 50; alias = some "web"; last_activity = 100; timer = some 50 }

abbrev manager : ChannelManager
manager = record { store = channel ∷ []; channels = ("tx1", 0) ∷ ("web", 0) ∷ []; timeouts = [] }

registered : register 100 "tx1" 50 (some "web") new ≡ some manager
unfolding register new field check checked find change
registered = refl

by_id : field manager.channels "tx1" ≡ some 0
unfolding field
by_id = refl

by_alias : field manager.channels "web" ≡ some 0
unfolding field
by_alias = refl

check_ends_or_rearms_example :
    ((100 + 50 ≤ 160) × Ended manager "tx1" (check 160 "tx1" manager))
    ⊎ ((160 < 100 + 50) × Rearmed 160 manager "tx1" 0 channel (check 160 "tx1" manager))
check_ends_or_rearms_example =
    check_ends_or_rearms 160 manager "tx1" 0 channel (record { named = by_id; stored = refl })
      (omega arith) (omega arith)
