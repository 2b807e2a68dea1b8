-- ===== src/Groups/Builds.antt =====
-- lib/db/models/build/model.js: whether a device still works for a build, and when a build is
-- finished.
use mercury_farm.Base.{
  ℕ, ◌+◌, ◌*◌, ◌≡◌, refl, Bool, true, false, ◌&&◌, ◌||◌, Option, none, some, List, [], ◌∷◌, arith,
  ltb, if◌then◌else◌,
}
use mercury_farm.Base.Text.{String, str_eq}

abbrev pub automation_alive_grace : ℕ
automation_alive_grace = 3 * (30 * 1000)

-- `owner.group`
pub record Owner : Type 0 where
  pub email : String
  pub group : Option String

pub record Alive : Type 0 where
  pub group : String
  pub at : ℕ

pub record Device : Type 0 where
  pub serial : String
  pub owner : Option Owner
  pub group_id : Option String
  pub automation_alive : Option Alive

abbrev same_text : Option String → String → Bool
same_text none id = false
same_text (some s) id = str_eq s id

-- `aliveAt > cutoff`, with the grace moved to the other side
abbrev pub is_recent : ℕ → Alive → Bool
is_recent now a = ltb now (a.at + automation_alive_grace)

owned_for : Device → String → Option Owner → Bool
owned_for d id none = false
owned_for d id (some o) = same_text o.group id || same_text d.group_id id

alive_for : ℕ → Device → String → Option Alive → Bool
alive_for now d id none = false
alive_for now d id (some a) = is_recent now a && (str_eq a.group id || same_text d.group_id id)

-- `isDeviceActiveForBuild`, from the second minute of 1970 on
unfoldable pub is_device_active_for_build : Option Device → String → ℕ → Bool
unfolding owned_for alive_for
is_device_active_for_build none id now = false
is_device_active_for_build (some d) id now =
    if str_eq id ""
    then false
    else if owned_for d id d.owner
    then true
    else alive_for now d id d.automation_alive

-- the query of `activeDevicesFilter` on one document
abbrev is_present {ℓ} : {A : Type ℓ} → Option A → Bool
is_present none = false
is_present (some a) = true

abbrev owner_group : Option Owner → Option String
owner_group none = none
owner_group (some o) = o.group

abbrev alive_recent : ℕ → Option Alive → Bool
alive_recent now none = false
alive_recent now (some a) = is_recent now a

abbrev alive_group : Option Alive → Option String
alive_group none = none
alive_group (some a) = some a.group

unfoldable pub matches_active_filter : Device → String → ℕ → Bool
matches_active_filter d id now =
    (is_present d.owner && (same_text (owner_group d.owner) id || same_text d.group_id id))
    || (alive_recent now d.automation_alive
        && (same_text (alive_group d.automation_alive) id || same_text d.group_id id))

-- On a build with an id the query counts exactly the devices that the test finds active.
pub filter_agrees :
    (d : Device) (id : String) (now : ℕ)
    → str_eq id "" ≡ false
    → matches_active_filter d id now ≡ is_device_active_for_build (some d) id now
unfolding matches_active_filter is_device_active_for_build
filter_agrees d id now h = rw h (ground arith)

pub data BuildState : Type 0 where
  running finished failed : BuildState

pub record Build : Type 0 where
  pub id : String
  pub state : BuildState
  pub released_at : Option ℕ

-- `devices.countDocuments(activeDevicesFilter(id))`
unfoldable pub count_active : List Device → String → ℕ → ℕ
count_active [] id now = 0
count_active (d ∷ ds) id now =
    let rest = count_active ds id now in if matches_active_filter d id now then rest + 1 else rest

abbrev is_running : BuildState → Bool
is_running running = true
is_running _ = false

-- `builds.updateOne({id, state: running}, {$set: …})`
unfoldable pub finish : List Build → String → ℕ → List Build
finish [] id now = []
finish (b ∷ bs) id now =
    let rest = finish bs id now in
    if str_eq b.id id && is_running b.state
    then record b { state = finished; released_at = some now } ∷ bs
    else b ∷ rest

unfoldable pub finish_build_if_inactive : List Device → List Build → String → ℕ → Bool × List Build
finish_build_if_inactive ds bs id now =
    if str_eq id ""
    then (false, bs)
    else if ltb 0 (count_active ds id now)
    then (false, bs)
    else (true, finish bs id now)

-- some device is active for the build
unfoldable pub any_active : List Device → String → ℕ → Bool
any_active [] id now = false
any_active (d ∷ ds) id now = is_device_active_for_build (some d) id now || any_active ds id now

count-any :
    (ds : List Device) (id : String) (now : ℕ)
    → str_eq id "" ≡ false
    → ltb 0 (count_active ds id now) ≡ any_active ds id now
unfolding count_active any_active
count-any [] id now h = refl
count-any (d ∷ ds) id now h = ground (arith, filter_agrees d id now h, count-any ds id now h)

-- For a build with an id: while a device is active for it the build stays as it is; once none is,
-- its running record is closed with the time, and the caller is told so.
pub finish_exactly :
    (ds : List Device) (bs : List Build) (id : String) (now : ℕ)
    → str_eq id "" ≡ false
    → finish_build_if_inactive ds bs id now
      ≡ (if any_active ds id now then (false, bs) else (true, finish bs id now))
unfolding finish_build_if_inactive
finish_exactly ds bs id now h = rw (h, count-any ds id now h)
