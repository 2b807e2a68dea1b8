-- ===== src/Groups/Ledger.antt =====
-- lib/db/models/group/model.js: the groups and what their owners' quotas are charged for them. An
-- update that the database runs is one step; a group is loaded in the call that uses it. Who is in a
-- group stands in Membership; what devices are told, and names and states, are left out.
pub mod Accounts
pub mod Balance
pub mod Owners
pub mod Handlers
pub mod Steps
pub mod Refusals
mod Tests
use mercury_farm.Base.{
  ℕ, ◌+◌, ◌-◌, ◌*◌, Bool, true, false, not, ◌&&◌, ◌||◌, Option, none, some, List, [], ◌∷◌, ◌++◌,
  leb, ◌==◌, if◌then◌else◌, length, is_some,
}
use mercury_farm.Base.Text.{String, str_eq, mem_text, field}
use mercury_farm.Groups.Types.{Window, Group, GroupClass}
use mercury_farm.Groups.Rules.{is_origin_group, compute_duration}
use mercury_farm.Groups.Overlap.{check_dates_overlaps}
use mercury_farm.Groups.Quotas.{Quotas, reserve, is_reserved, release, update_duration, is_charged}

pub record Db : Type 0 where
  pub users : List (String × Quotas)
  pub groups : List Group

-- `findOneAndUpdate` of the user with an email
unfoldable pub change_user :
    String → (Quotas → Quotas) → List (String × Quotas) → List (String × Quotas)
change_user email f [] = []
change_user email f (user ∷ users) =
    let rest = change_user email f users in
    if str_eq user.0 email then (user.0, f user.1) ∷ users else user ∷ rest

-- of the group with an id
unfoldable pub change_group : String → (Group → Group) → List Group → List Group
change_group id f [] = []
change_group id f (g ∷ groups) =
    let rest = change_group id f groups in if str_eq g.id id then f g ∷ groups else g ∷ rest

unfoldable pub get_group : String → List Group → Option Group
get_group id [] = none
get_group id (g ∷ groups) = if str_eq g.id id then some g else get_group id groups

-- `deleteOne`
unfoldable pub delete_group : String → List Group → List Group
delete_group id [] = []
delete_group id (g ∷ groups) =
    let rest = delete_group id groups in if str_eq g.id id then groups else g ∷ rest

-- `updateUserGroupDuration`, with `modifiedCount` as a test
abbrev pub charge : String → ℕ → ℕ → Db → Db
charge email old new db = record db { users = change_user email (update_duration old new) db.users }

unfoldable pub is_modified : ℕ → ℕ → Option Quotas → Bool
is_modified old new none = false
is_modified old new (some q) = is_charged old new q

abbrev shares : List String → List String → Bool
shares [] serials = false
shares (d ∷ devices) serials = mem_text d serials || shares devices serials

-- the transient groups with one of some devices
unfoldable pub rivals : List String → List Group → List Group
rivals serials [] = []
rivals serials (g ∷ groups) =
    let rest = rivals serials groups in
    if not (is_origin_group g.class) && shares g.devices serials then g ∷ rest else rest

unfoldable pub difference : List String → List String → List String
difference [] ys = []
difference (x ∷ xs) ys = let rest = difference xs ys in if mem_text x ys then rest else x ∷ rest

unfoldable pub uniq : List String → List String
uniq [] = []
uniq (x ∷ xs) = let rest = uniq xs in x ∷ difference rest (x ∷ [])

-- what `addGroupDevices` comes to
pub data Added : Type 0 where
  added unchanged quota_is_reached dates_overlap type_error : Added

unfoldable pub add_charged : Group → ℕ → List String → Db → Added × Db
add_charged g duration serials db =
    let charged = charge g.owner g.duration duration db in
    if is_some (check_dates_overlaps g (rivals serials db.groups))
    then (dates_overlap, charged)
    else (
      added,
      record charged {
        groups =
            change_group g.id
              (λ h. record h { duration = duration; devices = uniq (g.devices ++ serials) })
              db.groups;
      },
    )

unfoldable pub add_priced : Group → Option ℕ → List String → Db → Added × Db
add_priced g none serials db = (type_error, db)
add_priced g (some duration) serials db =
    if is_modified g.duration duration (field db.users g.owner)
    then add_charged g duration serials db
    else (quota_is_reached, charge g.owner g.duration duration db)

unfoldable pub add_group_devices : Group → List String → Db → Added × Db
add_group_devices g serials db =
    if length serials == 0
    then (unchanged, db)
    else add_priced g (compute_duration g (length serials)) serials db

-- `computeDuration` with `n` devices less; none is the TypeError, or a duration below 0, which is not
-- modelled.
unfoldable pub compute_duration_less : Group → ℕ → Option ℕ
compute_duration_less g n =
    if leb n (length g.devices)
    then compute_duration (record g { devices = [] }) (length g.devices - n)
    else none

unfoldable pub remove_priced : Group → Option ℕ → List String → Db → Db
remove_priced g none serials db = db
remove_priced g (some duration) serials db = record (charge g.owner g.duration duration db) {
  groups =
      change_group g.id
        (λ h. record h { duration = duration; devices = difference g.devices serials }) db.groups;
}

unfoldable pub remove_group_devices : Group → List String → Db → Db
remove_group_devices g serials db =
    remove_priced g (compute_duration_less g (length serials)) serials db

-- what `updateUserGroup` sets
pub record Data : Type 0 where
  pub class : GroupClass
  pub is_active : Bool
  pub repetitions : ℕ
  pub dates : List Window
  pub duration : ℕ

abbrev pub with_data : Data → Group → Group
with_data d g = record g {
  class = d.class;
  is_active = d.is_active;
  repetitions = d.repetitions;
  dates = d.dates;
  duration = d.duration;
}

-- `updateUserGroup`, and whether it returns a group
unfoldable pub update_user_group : Group → Data → Db → Bool × Db
update_user_group g d db =
    let charged = charge g.owner g.duration d.duration db in
    let owner = field db.users g.owner in
    if (not (is_modified g.duration d.duration owner) && not (is_some owner))
      || not (g.duration == d.duration)
    then (false, charged)
    else (true, record charged { groups = change_group g.id (with_data d) db.groups })

abbrev pub fresh : Group → Group
fresh g = record g { devices = [] }

unfoldable pub create_reserved : Group → Option Quotas → Db → Bool × Db
create_reserved g none db = (false, db)
create_reserved g (some q) db =
    let reserved = record db { users = change_user g.owner reserve db.users } in
    if is_reserved q
    then (true, record reserved { groups = db.groups ++ fresh g ∷ [] })
    else (false, reserved)

-- `createUserGroup`, with the id that is made for it, and whether it returns a group
unfoldable pub create_user_group : Group → Db → Bool × Db
create_user_group g db = create_reserved g (field db.users g.owner) db

-- `deleteUserGroup`, where `root` is the id of the root group
unfoldable pub deleted : Group → Db → Db
deleted g db = record {
  users = change_user g.owner (update_duration g.duration 0) (change_user g.owner release db.users);
  groups = delete_group g.id db.groups;
}

unfoldable pub delete_user_group : String → Group → Db → Db
delete_user_group root g db = if str_eq g.id root then db else deleted g db

pub data Call : Type 0 where
  adds removes : String → List String → Call
  updates : String → Data → Call
  creates : Group → Call
  deletes : String → Call

-- a call with the group that it loads
unfoldable pub call_on : String → Call → Option Group → Db → Db
call_on root (adds id serials) (some g) db = (add_group_devices g serials db).1
call_on root (removes id serials) (some g) db = remove_group_devices g serials db
call_on root (updates id d) (some g) db = (update_user_group g d db).1
call_on root (deletes id) (some g) db = delete_user_group root g db
call_on root (creates h) (some g) db = db
call_on root call none db = db

unfoldable pub step : String → Call → Db → Db
step root (creates g) db = (create_user_group g db).1
step root (adds id serials) db = call_on root (adds id serials) (get_group id db.groups) db
step root (removes id serials) db = call_on root (removes id serials) (get_group id db.groups) db
step root (updates id d) db = call_on root (updates id d) (get_group id db.groups) db
step root (deletes id) db = call_on root (deletes id) (get_group id db.groups) db

unfoldable pub run : String → List Call → Db → Db
run root [] db = db
run root (call ∷ calls) db = run root calls (step root call db)
