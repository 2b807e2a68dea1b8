-- ===== src/Groups/Membership/Tests.antt =====
-- Memberships on a concrete database.
use mercury_farm.Base.{◌≡◌, refl, true, false, List, [], ◌∷◌, arith}
use mercury_farm.Base.Text.{field, delete_field}
use mercury_farm.Groups.Membership.{
  Db, change, add_to_set, pull, unsubscribe_all, add_group_user, removed, remove_group_user,
  add_group_moderator, remove_group_moderator, create_user_group, add_admins_to_group,
  missing_admins, subscribe_all, deleted, delete_user_group, create_user, Call, adds, removes,
  promotes, demotes, creates, deletes, admits_admins, joins, step, run,
}
use mercury_farm.Groups.Membership.Relation.{Linked, is_member}
use mercury_farm.Groups.Membership.Linked.{is_regular, is_regular_run, run-Linked}

abbrev start : Db
start = record {
  groups =
      ("root", record { owner = "ann"; users = "ann" ∷ []; moderators = []; is_root = true }) ∷ [];
  users = ("ann", record { is_admin = true; subscribed = "root" ∷ [] }) ∷ [];
}

start-Linked : Linked start
unfolding Linked field
start-Linked id email = ground arith

abbrev calls : List Call
calls =
    joins "bob" false
    ∷ creates "g" "bob"
    ∷ joins "eve" false
    ∷ adds "g" "eve"
    ∷ promotes "g" "ann"
    ∷ removes "g" "bob"
    ∷ removes "g" "ann"
    ∷ joins "joe" true
    ∷ admits_admins "g"
    ∷ removes "g" "ann"
    ∷ demotes "g" "ann"
    ∷ deletes "root"
    ∷ []

calls-is_regular : is_regular_run "root" "ann" calls start ≡ true
unfolding is_regular_run is_regular step run field delete_field change add_to_set pull
    unsubscribe_all add_group_user removed remove_group_user add_group_moderator
    remove_group_moderator create_user_group add_admins_to_group missing_admins subscribe_all
    deleted delete_user_group create_user
calls-is_regular = refl

eve_is_in : is_member "g" "eve" (run "root" "ann" calls start).groups ≡ true
unfolding step run field delete_field change add_to_set pull unsubscribe_all add_group_user removed
    remove_group_user add_group_moderator remove_group_moderator create_user_group
    add_admins_to_group missing_admins subscribe_all deleted delete_user_group create_user
eve_is_in = refl

ann_is_out : is_member "g" "ann" (run "root" "ann" calls start).groups ≡ false
unfolding step run field delete_field change add_to_set pull unsubscribe_all add_group_user removed
    remove_group_user add_group_moderator remove_group_moderator create_user_group
    add_admins_to_group missing_admins subscribe_all deleted delete_user_group create_user
ann_is_out = refl

run-Linked_example : Linked (run "root" "ann" calls start)
run-Linked_example = run-Linked "root" "ann" calls start start-Linked calls-is_regular
