-- ===== src/Groups/Membership/Admins.antt =====
-- Administrators in a group.
use mercury_farm.Base.{
  ◌≡◌, refl, sym, ap, ◌∙◌, Bool, true, false, ◌&&◌, ◌||◌, Option, none, some, List, [], ◌∷◌, ◌++◌,
  arith, if◌then◌else◌, if-cases, is_some,
}
use mercury_farm.Base.Text.{String, str_eq, eq_iff, mem_text, field}
use mercury_farm.Groups.Membership.{
  Db, Members, User, change, missing_admins, subscribe_all, users_of, add_admins_to_group,
}
use mercury_farm.Groups.Membership.Relation.{
  Linked, has_user, has_group, map_value, field-change, is_member, is_subscribed, mem-append, if-or,
  is_member-change, is_subscribed-change,
}

mem-concat :
    (x : String) (xs ys : List String) → mem_text x (xs ++ ys) ≡ mem_text x xs || mem_text x ys
mem-concat x [] ys = refl
mem-concat x (z ∷ xs) ys = ground (arith, mem-concat x xs ys)

-- an administrator is a user
missing_admins-is_some :
    (members : List String) (users : List (String × User)) (email : String)
    → mem_text email (missing_admins members users) ≡ true
    → is_some (field users email) ≡ true
unfolding missing_admins field
missing_admins-is_some members [] email h = cc
missing_admins-is_some members (u ∷ users) email h =
    ground (arith, missing_admins-is_some members users email)

appended-has_group :
    (x id : String) (u : Option User)
    → has_group id (map_value (λ v. record v { subscribed = v.subscribed ++ x ∷ [] }) u)
      ≡ (is_some u && str_eq x id) || has_group id u
appended-has_group x id none = refl
appended-has_group x id (some u) = mem-append id x u.subscribed ∙ ground arith

is_some-change :
    (users : List (String × User)) (y email : String) (f : User → User)
    → is_some (field (change y f users) email) ≡ is_some (field users email)
is_some-change users y email f =
    ap is_some (field-change users y email f)
    ∙ if-cases (λ (o : Option User). is_some o ≡ is_some (field users email)) (str_eq y email)
        (λ _. is_some-map_value (field users email)) (λ _. refl)
  where
    is_some-map_value : (o : Option User) → is_some (map_value f o) ≡ is_some o
    is_some-map_value none = refl
    is_some-map_value (some u) = refl

one-more :
    (a y m u s : Bool) → (a && (m && u)) || ((y && (u && a)) || s) ≡ (a && ((y || m) && u)) || s
one-more a y m u s = ground arith

is_subscribed-subscribe_all :
    (emails : List String) (users : List (String × User)) (id i email : String)
    → is_subscribed i email (subscribe_all id emails users)
      ≡ (str_eq id i && (mem_text email emails && is_some (field users email)))
        || is_subscribed i email users
unfolding subscribe_all
is_subscribed-subscribe_all [] users id i email = ground arith
is_subscribed-subscribe_all (y ∷ emails) users id i email =
    let f : User → User = λ u. record u { subscribed = u.subscribed ++ id ∷ [] } in
    is_subscribed-subscribe_all emails (change y f users) id i email
    ∙ (ap
          (λ (b : Bool).
            (str_eq id i && (mem_text email emails && b))
            || is_subscribed i email (change y f users))
          (is_some-change users y email f)
        ∙ (ap
              (λ (b : Bool).
                (str_eq id i && (mem_text email emails && is_some (field users email))) || b)
              (is_subscribed-change users y i email f
                ∙ (ap (λ (b : Bool). if str_eq y email then b else is_subscribed i email users)
                      (appended-has_group id i (field users email))
                    ∙ if-or (str_eq y email) (is_some (field users email) && str_eq id i)
                        (is_subscribed i email users)))
            ∙ one-more (str_eq id i) (str_eq y email) (mem_text email emails)
                (is_some (field users email)) (is_subscribed i email users)))

set-has_user :
    (members : List String) (admins : List String) (email : String) (g : Option Members)
    → is_some g ≡ true
    → members ≡ users_of g
    → has_user email (map_value (λ h. record h { users = members ++ admins }) g)
      ≡ mem_text email admins || has_user email g
set-has_user members admins email none s e = cc
set-has_user members admins email (some g) s e =
    mem-concat email members admins
    ∙ (ap (λ (l : List String). mem_text email l || mem_text email admins) e ∙ ground arith)

set_if :
    (a h m d u s : Bool)
    → (a ≡ true → h ≡ d || m)
    → (d ≡ true → u ≡ true)
    → m ≡ s
    → (if a then h else m) ≡ (a && (d && u)) || s
set_if true h m true u s p q e = p refl ∙ ap (λ (b : Bool). b || s) (sym (q refl))
set_if true h m false u s p q e = p refl ∙ e
set_if false h m d u s p q e = e

pub add_admins_to_group-Linked :
    (db : Db)
    → Linked db
    → (id : String) → is_some (field db.groups id) ≡ true
    → Linked (add_admins_to_group id db)
unfolding Linked add_admins_to_group
add_admins_to_group-Linked db l id g i email =
    let members : List String = users_of (field db.groups id) in
    let admins : List String = missing_admins members db.users in
    is_member-change db.groups id i email (λ h. record h { users = members ++ admins })
    ∙ (set_if (str_eq id i)
          (has_user email
            (map_value (λ h. record h { users = members ++ admins }) (field db.groups i)))
          (is_member i email db.groups) (mem_text email admins) (is_some (field db.users email))
          (is_subscribed i email db.users)
          (λ e.
            let same : id ≡ i = (eq_iff id i).0 e in
            set-has_user members admins email (field db.groups i)
              (ap (λ (k : String). is_some (field db.groups k)) (sym same) ∙ g)
              (ap (λ (k : String). users_of (field db.groups k)) same))
          (missing_admins-is_some members db.users email) (l i email)
        ∙ sym (is_subscribed-subscribe_all admins db.users id i email))
