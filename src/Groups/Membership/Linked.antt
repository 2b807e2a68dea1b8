-- ===== src/Groups/Membership/Linked.antt =====
-- Groups and users say the same of who is in a group.
use mercury_farm.Base.{
  ◌≡◌, refl, sym, ap, ◌∙◌, Bool, true, false, not, ◌&&◌, ◌||◌, Option, none, some, List, [], ◌∷◌,
  arith, if-cases, is_some,
}
use mercury_farm.Base.Text.{String, str_eq, eq_iff, mem_text, field, set_field}
use mercury_farm.Groups.Membership.{
  Db, Members, change, add_to_set, pull, subscribe, add_group_user, removed, remove_group_user,
  add_group_moderator, remove_group_moderator, create_user_group, deleted, delete_user_group,
  create_user, Call, adds, removes, promotes, demotes, creates, deletes, admits_admins, joins, step,
  run,
}
use mercury_farm.Groups.Membership.Admins.{add_admins_to_group-Linked}
use mercury_farm.Groups.Membership.Relation.{
  Linked, has_user, is_member, is_subscribed, mem-add_to_set, is_member-pull, is_member-same,
  is_subscribed-pull, is_subscribed-unsubscribe_all, is_member-delete,
}
use mercury_farm.Groups.Membership.Additions.{
  has_key-change, add-is_member, add-is_subscribed, new_key, new-is_subscribed, new-is_member,
  twice-or, rest-agree,
}

module _ (db : Db) (l : Linked db) where
  add_group_user-Linked :
      (id email : String)
      → is_some (field db.groups id) ≡ true
      → is_some (field db.users email) ≡ true
      → Linked (add_group_user id email db)
  unfolding Linked add_group_user
  add_group_user-Linked id y g u i email =
      add-is_member db.groups id y i email g
      ∙ (ap (λ (b : Bool). (str_eq id i && str_eq y email) || b) (l i email)
          ∙ sym (add-is_subscribed db.users id y i email u))

  removed-Linked : (id email : String) (g : Option Members) → Linked (removed id email g db)
  unfolding removed Linked
  removed-Linked id y none = l
  removed-Linked id y (some g) =
      if-cases Linked (str_eq g.owner y) (λ _. l)
        (λ _ i email.
          is_member-pull db.groups id i email y
          ∙ (ap (λ (b : Bool). not (str_eq id i && str_eq y email) && b) (l i email)
              ∙ (ground arith ∙ sym (is_subscribed-pull db.users y i email id))))

  same_users-Linked :
      (id : String) (f : Members → Members)
      → ((g : Members) → (f g).users ≡ g.users)
      → Linked (record db { groups = change id f db.groups })
  unfolding Linked
  same_users-Linked id f e i email = is_member-same db.groups id i email f e ∙ l i email

  deleted-Linked :
      (id : String) (g : Option Members) → field db.groups id ≡ g → Linked (deleted id g db)
  unfolding deleted Linked
  deleted-Linked id none e = l
  deleted-Linked id (some g) e =
      if-cases Linked g.is_root (λ _. l)
        (λ _ i email.
          is_member-delete db.groups id i email
          ∙ (rest-agree (str_eq id i) (mem_text email g.users) (is_member i email db.groups)
                (is_subscribed i email db.users) (l i email)
                (λ same.
                  ap (λ (k : String). is_member k email db.groups) (sym ((eq_iff id i).0 same))
                  ∙ ap (has_user email) e)
              ∙ sym (is_subscribed-unsubscribe_all g.users db.users id i email)))

  -- a group that is not there yet, for users that are
  create_user_group-Linked :
      (root_owner id owner : String)
      → is_some (field db.groups id) ≡ false
      → is_some (field db.users owner) ≡ true
      → is_some (field db.users root_owner) ≡ true
      → Linked (create_user_group root_owner id owner db)
  unfolding Linked create_user_group add_group_user field
  create_user_group-Linked root_owner id owner g u r i email =
      let group : Members = record {
        owner = owner;
        users = add_to_set owner (root_owner ∷ []);
        moderators = [];
        is_root = false;
      } in
      let first : List (String × Members) = set_field db.groups id group in
      let second : List (String × Members) =
        change id (λ h. record h { users = add_to_set owner h.users }) first in
      let has : is_some (field first id) ≡ true = new_key db.groups id group in
      add-is_member second id root_owner i email
        (has_key-change first id id (λ h. record h { users = add_to_set owner h.users }) ∙ has)
      ∙ (ap (λ (b : Bool). (str_eq id i && str_eq root_owner email) || b)
            (add-is_member first id owner i email has
              ∙ ap (λ (b : Bool). (str_eq id i && str_eq owner email) || b)
                  (new-is_member db.groups id i email group g))
          ∙ (twice-or (str_eq id i) (str_eq owner email) (str_eq root_owner email)
                (mem_text email group.users) (is_member i email db.groups)
                (is_subscribed i email db.users) (mem-add_to_set email owner (root_owner ∷ []))
                (l i email)
              ∙ (ap (λ (b : Bool). (str_eq id i && str_eq root_owner email) || b)
                    (sym (add-is_subscribed db.users id owner i email u))
                  ∙ sym (
                      add-is_subscribed (change owner (subscribe id) db.users) id root_owner i email
                        (has_key-change db.users owner root_owner (subscribe id) ∙ r)))))

  -- a user that is not there yet, and a root group that is
  create_user-Linked :
      (root email : String) (is_admin : Bool)
      → is_some (field db.users email) ≡ false
      → is_some (field db.groups root) ≡ true
      → Linked (create_user root email is_admin db)
  unfolding Linked create_user add_group_user
  create_user-Linked root y a u g i email =
      add-is_member db.groups root y i email g
      ∙ (ap (λ (b : Bool). (str_eq root i && str_eq y email) || b)
            (l i email
              ∙ sym (
                  new-is_subscribed db.users y i email (record { is_admin = a; subscribed = [] }) u
                    (λ _. refl)))
          ∙ sym (
              add-is_subscribed (set_field db.users y (record { is_admin = a; subscribed = [] }))
                root y i email (new_key db.users y (record { is_admin = a; subscribed = [] }))))

-- users and groups are there, or not there yet
unfoldable pub is_regular : String → String → Call → Db → Bool
is_regular root root_owner (adds id email) db =
    is_some (field db.groups id) && is_some (field db.users email)
is_regular root root_owner (promotes id email) db =
    is_some (field db.groups id) && is_some (field db.users email)
is_regular root root_owner (creates id owner) db =
    not (is_some (field db.groups id))
    && (is_some (field db.users owner) && is_some (field db.users root_owner))
is_regular root root_owner (joins email is_admin) db =
    not (is_some (field db.users email)) && is_some (field db.groups root)
is_regular root root_owner (admits_admins id) db = is_some (field db.groups id)
is_regular root root_owner call db = true

unfoldable pub is_regular_run : String → String → List Call → Db → Bool
is_regular_run root root_owner [] db = true
is_regular_run root root_owner (call ∷ calls) db =
    is_regular root root_owner call db
    && is_regular_run root root_owner calls (step root root_owner call db)

step-Linked :
    (root root_owner : String) (call : Call) (db : Db)
    → Linked db
    → is_regular root root_owner call db ≡ true
    → Linked (step root root_owner call db)
unfolding step is_regular remove_group_user delete_user_group add_group_moderator
    remove_group_moderator
step-Linked root o (adds id email) db l r =
    add_group_user-Linked db l id email (ground arith) (ground arith)
step-Linked root o (removes id email) db l r = removed-Linked db l id email (field db.groups id)
step-Linked root o (promotes id email) db l r =
    same_users-Linked (add_group_user id email db)
      (add_group_user-Linked db l id email (ground arith) (ground arith)) id
      (λ g. record g { moderators = add_to_set email g.moderators }) (λ _. refl)
step-Linked root o (demotes id email) db l r =
    same_users-Linked db l id (λ g. record g { moderators = pull email g.moderators }) (λ _. refl)
step-Linked root o (creates id owner) db l r =
    create_user_group-Linked db l o id owner (ground arith) (ground arith) (ground arith)
step-Linked root o (deletes id) db l r = deleted-Linked db l id (field db.groups id) refl
step-Linked root o (admits_admins id) db l r = add_admins_to_group-Linked db l id r
step-Linked root o (joins email is_admin) db l r =
    create_user-Linked db l root email is_admin (ground arith) (ground arith)

-- Where each group lists a user just if the user is subscribed to the group, it is so after any
-- calls, where users are added to groups that are there and are users that are there,
-- administrators are added to groups that are there, a new group has an id of its own and owners
-- that are users, and a new user an email of its own, with the root group there.
pub run-Linked :
    (root root_owner : String) (calls : List Call) (db : Db)
    → Linked db
    → is_regular_run root root_owner calls db ≡ true
    → Linked (run root root_owner calls db)
unfolding run is_regular_run
run-Linked root o [] db l r = l
run-Linked root o (call ∷ calls) db l r =
    run-Linked root o calls (step root o call db) (step-Linked root o call db l (ground arith))
      (ground arith)
