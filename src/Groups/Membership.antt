-- ===== src/Groups/Membership.antt =====
-- lib/db/models/group/model.js: who is in a group, which the group and the user both say. What devices
-- and users are told of a change is left out.
pub mod Relation
pub mod Admins
pub mod Additions
pub mod Linked
mod Tests
use mercury_farm.Base.{
  Bool, true, false, not, ◌&&◌, ◌||◌, Option, none, some, List, [], ◌∷◌, ◌++◌, if◌then◌else◌,
  is_some,
}
use mercury_farm.Base.Text.{String, str_eq, mem_text, field, set_field, delete_field}

pub record Members : Type 0 where
  pub owner : String
  pub users : List String
  pub moderators : List String
  pub is_root : Bool

pub record User : Type 0 where
  pub is_admin : Bool
  pub subscribed : List String

-- the groups by their ids, and the users by their emails
pub record Db : Type 0 where
  pub groups : List (String × Members)
  pub users : List (String × User)

-- `updateOne` of the object with a key
module _ {ℓ} {V : Type ℓ} where
  unfoldable pub change : String → (V → V) → List (String × V) → List (String × V)
  change key f [] = []
  change key f (pair ∷ pairs) =
      let rest = change key f pairs in
      if str_eq pair.0 key then (pair.0, f pair.1) ∷ rest else pair ∷ rest

-- `$addToSet`
unfoldable pub add_to_set : String → List String → List String
add_to_set x xs = if mem_text x xs then xs else xs ++ x ∷ []

-- `$pull`
unfoldable pub pull : String → List String → List String
pull x [] = []
pull x (y ∷ ys) = let rest = pull x ys in if str_eq y x then rest else y ∷ rest

abbrev pub subscribe : String → User → User
subscribe id u = record u { subscribed = add_to_set id u.subscribed }

abbrev pub unsubscribe : String → User → User
unsubscribe id u = record u { subscribed = pull id u.subscribed }

-- `addGroupUser`
unfoldable pub add_group_user : String → String → Db → Db
add_group_user id email db = record {
  groups = change id (λ g. record g { users = add_to_set email g.users }) db.groups;
  users = change email (subscribe id) db.users;
}

-- `removeGroupUser`, of the group that is found
unfoldable pub removed : String → String → Option Members → Db → Db
removed id email none db = db
removed id email (some g) db = if str_eq g.owner email then db else record {
  groups =
      change id (λ h. record h { users = pull email h.users; moderators = pull email h.moderators })
        db.groups;
  users = change email (unsubscribe id) db.users;
}

unfoldable pub remove_group_user : String → String → Db → Db
remove_group_user id email db = removed id email (field db.groups id) db

-- `addGroupModerator`, `removeGroupModerator`
unfoldable pub add_group_moderator : String → String → Db → Db
add_group_moderator id email db =
    let added = add_group_user id email db in
    record added {
      groups =
          change id (λ g. record g { moderators = add_to_set email g.moderators }) added.groups;
    }

unfoldable pub remove_group_moderator : String → String → Db → Db
remove_group_moderator id email db = record db {
  groups = change id (λ g. record g { moderators = pull email g.moderators }) db.groups;
}

-- the administrators that are not among some users
unfoldable pub missing_admins : List String → List (String × User) → List String
missing_admins members [] = []
missing_admins members (user ∷ users) =
    let rest = missing_admins members users in
    if user.1.is_admin && not (mem_text user.0 members) then user.0 ∷ rest else rest

unfoldable pub subscribe_all : String → List String → List (String × User) → List (String × User)
subscribe_all id [] users = users
subscribe_all id (email ∷ emails) users =
    subscribe_all id emails
      (change email (λ u. record u { subscribed = u.subscribed ++ id ∷ [] }) users)

abbrev pub users_of : Option Members → List String
users_of none = []
users_of (some g) = g.users

-- `addAdminsToGroup`; the updates of the users, which it does not wait for, are done
unfoldable pub add_admins_to_group : String → Db → Db
add_admins_to_group id db =
    let members = users_of (field db.groups id) in
    let admins = missing_admins members db.users in
    record {
      groups = change id (λ g. record g { users = members ++ admins }) db.groups;
      users = subscribe_all id admins db.users;
    }

-- `createUserGroup`, with the id that is made for the group and the owner of the root group
unfoldable pub create_user_group : String → String → String → Db → Db
create_user_group root_owner id owner db =
    let group : Members = record {
      owner = owner;
      users = add_to_set owner (root_owner ∷ []);
      moderators = [];
      is_root = false;
    } in
    add_group_user id root_owner
      (add_group_user id owner (record db { groups = set_field db.groups id group }))

-- the users of a group are unsubscribed
unfoldable pub unsubscribe_all : String → List String → List (String × User) → List (String × User)
unsubscribe_all id [] users = users
unsubscribe_all id (email ∷ emails) users =
    unsubscribe_all id emails (change email (unsubscribe id) users)

-- `deleteUserGroup`
unfoldable pub deleted : String → Option Members → Db → Db
deleted id none db = db
deleted id (some g) db =
    if g.is_root
    then db
    else record { groups = delete_field db.groups id; users = unsubscribe_all id g.users db.users }

unfoldable pub delete_user_group : String → Db → Db
delete_user_group id db = deleted id (field db.groups id) db

-- `createUser`, into the root group
unfoldable pub create_user : String → String → Bool → Db → Db
create_user root email is_admin db = add_group_user root email (record db {
  users = set_field db.users email (record { is_admin = is_admin; subscribed = [] });
})

pub data Call : Type 0 where
  adds removes promotes demotes : String → String → Call
  -- the id and the owner
  creates : String → String → Call
  deletes admits_admins : String → Call
  -- the email, and whether the user is an administrator
  joins : String → Bool → Call

-- `root` is the id of the root group, with its owner
unfoldable pub step : String → String → Call → Db → Db
step root root_owner (adds id email) db = add_group_user id email db
step root root_owner (removes id email) db = remove_group_user id email db
step root root_owner (promotes id email) db = add_group_moderator id email db
step root root_owner (demotes id email) db = remove_group_moderator id email db
step root root_owner (creates id owner) db = create_user_group root_owner id owner db
step root root_owner (deletes id) db = delete_user_group id db
step root root_owner (admits_admins id) db = add_admins_to_group id db
step root root_owner (joins email is_admin) db = create_user root email is_admin db

unfoldable pub run : String → String → List Call → Db → Db
run root root_owner [] db = db
run root root_owner (call ∷ calls) db = run root root_owner calls (step root root_owner call db)
