-- ===== src/Groups/Membership/Relation.antt =====
-- Who is a member of what, by the groups and by the users.
use mercury_farm.Base.{
  ◌≡◌, refl, ap, ◌∙◌, Bool, true, false, not, ◌&&◌, ◌||◌, Option, none, some, List, [], ◌∷◌, ◌++◌,
  arith, if◌then◌else◌, if-cases, is_some,
}
use mercury_farm.Base.Text.{
  String, str_eq, eq_iff, mem_text, field, delete_field, field-delete_field,
}
use mercury_farm.Groups.Membership.{
  Db, Members, User, change, add_to_set, pull, subscribe, unsubscribe, unsubscribe_all,
}

abbrev pub has_user : String → Option Members → Bool
has_user email none = false
has_user email (some g) = mem_text email g.users

abbrev pub has_group : String → Option User → Bool
has_group id none = false
has_group id (some u) = mem_text id u.subscribed

-- by the group
abbrev pub is_member : String → String → List (String × Members) → Bool
is_member id email groups = has_user email (field groups id)

-- by the user
abbrev pub is_subscribed : String → String → List (String × User) → Bool
is_subscribed id email users = has_group id (field users email)

module _ {ℓ} {V : Type ℓ} where
  abbrev pub map_value : (V → V) → Option V → Option V
  map_value f none = none
  map_value f (some v) = some (f v)

  pub field-change :
      (pairs : List (String × V)) (key other : String) (f : V → V)
      → field (change key f pairs) other
        ≡ (if str_eq key other then map_value f (field pairs other) else field pairs other)
  unfolding field change
  field-change [] key other f = ground arith
  field-change (pair ∷ pairs) key other f = ground (
    arith,
    field-change pairs key other f,
    eq_iff pair.0 key,
    eq_iff pair.0 other,
    eq_iff key other,
  )

pub mem-append :
    (x y : String) (xs : List String) → mem_text x (xs ++ y ∷ []) ≡ mem_text x xs || str_eq y x
mem-append x y [] = ground arith
mem-append x y (z ∷ xs) = ground (arith, mem-append x y xs)

mem-same : (x y : String) (xs : List String) → str_eq y x ≡ true → mem_text y xs ≡ mem_text x xs
mem-same x y xs h = ap (λ (z : String). mem_text z xs) ((eq_iff y x).0 h)

pub mem-add_to_set :
    (x y : String) (xs : List String) → mem_text x (add_to_set y xs) ≡ str_eq y x || mem_text x xs
unfolding add_to_set
mem-add_to_set x y xs = ground (arith, mem-append x y xs, mem-same x y xs)

pub mem-pull :
    (x y : String) (xs : List String) → mem_text x (pull y xs) ≡ not (str_eq y x) && mem_text x xs
unfolding pull
mem-pull x y [] = ground arith
mem-pull x y (z ∷ xs) = ground (arith, mem-pull x y xs, eq_iff z y, eq_iff z x, eq_iff y x)

pub ap-if :
    {A B : Type 0} (h : A → B) (b : Bool) (x y : A)
    → h (if b then x else y) ≡ (if b then h x else h y)
ap-if h true x y = refl
ap-if h false x y = refl

pub if-or : (b p m : Bool) → (if b then p || m else m) ≡ (b && p) || m
if-or true p m = refl
if-or false p m = refl

if-and : (b p m : Bool) → (if b then not p && m else m) ≡ not (b && p) && m
if-and true p m = refl
if-and false p m = refl

if-none : (b m : Bool) → (if b then false else m) ≡ not b && m
if-none true m = refl
if-none false m = refl

added-has_user :
    (y email : String) (g : Option Members)
    → has_user email (map_value (λ h. record h { users = add_to_set y h.users }) g)
      ≡ (is_some g && str_eq y email) || has_user email g
added-has_user y email none = refl
added-has_user y email (some g) = mem-add_to_set email y g.users

added-has_group :
    (x id : String) (u : Option User)
    → has_group id (map_value (subscribe x) u) ≡ (is_some u && str_eq x id) || has_group id u
added-has_group x id none = refl
added-has_group x id (some u) = mem-add_to_set id x u.subscribed

pulled-has_user :
    (y email : String) (g : Option Members)
    → has_user email
        (map_value (λ h. record h { users = pull y h.users; moderators = pull y h.moderators }) g)
      ≡ not (str_eq y email) && has_user email g
pulled-has_user y email none = ground arith
pulled-has_user y email (some g) = mem-pull email y g.users

pulled-has_group :
    (x id : String) (u : Option User)
    → has_group id (map_value (unsubscribe x) u) ≡ not (str_eq x id) && has_group id u
pulled-has_group x id none = ground arith
pulled-has_group x id (some u) = mem-pull id x u.subscribed

same-has_user :
    (f : Members → Members)
    → ((g : Members) → (f g).users ≡ g.users)
    → (email : String) (g : Option Members) → has_user email (map_value f g) ≡ has_user email g
same-has_user f e email none = refl
same-has_user f e email (some g) = ap (mem_text email) (e g)

module _ (groups : List (String × Members)) (id i email : String) where
  pub is_member-change :
      (f : Members → Members)
      → is_member i email (change id f groups) ≡ (
          if str_eq id i
          then has_user email (map_value f (field groups i))
          else is_member i email groups)
  is_member-change f =
      ap (has_user email) (field-change groups id i f)
      ∙ ap-if (has_user email) (str_eq id i) (map_value f (field groups i)) (field groups i)

  -- `$addToSet` into a group
  pub is_member-add :
      (y : String)
      → is_member i email (change id (λ g. record g { users = add_to_set y g.users }) groups)
        ≡ (str_eq id i && (is_some (field groups i) && str_eq y email)) || is_member i email groups
  is_member-add y =
      is_member-change (λ g. record g { users = add_to_set y g.users })
      ∙ (ap (λ (b : Bool). if str_eq id i then b else is_member i email groups)
            (added-has_user y email (field groups i))
          ∙ if-or (str_eq id i) (is_some (field groups i) && str_eq y email)
              (is_member i email groups))

  pub is_member-pull :
      (y : String)
      → is_member i email (
          change id
            (λ g. record g { users = pull y g.users; moderators = pull y g.moderators })
            groups)
        ≡ not (str_eq id i && str_eq y email) && is_member i email groups
  is_member-pull y =
      is_member-change (λ g. record g { users = pull y g.users; moderators = pull y g.moderators })
      ∙ (ap (λ (b : Bool). if str_eq id i then b else is_member i email groups)
            (pulled-has_user y email (field groups i))
          ∙ if-and (str_eq id i) (str_eq y email) (is_member i email groups))

  pub is_member-same :
      (f : Members → Members)
      → ((g : Members) → (f g).users ≡ g.users)
      → is_member i email (change id f groups) ≡ is_member i email groups
  is_member-same f e =
      is_member-change f
      ∙ (ap (λ (b : Bool). if str_eq id i then b else is_member i email groups)
            (same-has_user f e email (field groups i))
          ∙ if-cases (λ (b : Bool). b ≡ is_member i email groups) (str_eq id i) (λ _. refl)
              (λ _. refl))

module _ (users : List (String × User)) (y i email : String) where
  pub is_subscribed-change :
      (f : User → User)
      → is_subscribed i email (change y f users) ≡ (
          if str_eq y email
          then has_group i (map_value f (field users email))
          else is_subscribed i email users)
  is_subscribed-change f =
      ap (has_group i) (field-change users y email f)
      ∙ ap-if (has_group i) (str_eq y email) (map_value f (field users email)) (field users email)

  pub is_subscribed-add :
      (id : String)
      → is_subscribed i email (change y (subscribe id) users)
        ≡ (str_eq y email && (is_some (field users email) && str_eq id i))
          || is_subscribed i email users
  is_subscribed-add id =
      is_subscribed-change (subscribe id)
      ∙ (ap (λ (b : Bool). if str_eq y email then b else is_subscribed i email users)
            (added-has_group id i (field users email))
          ∙ if-or (str_eq y email) (is_some (field users email) && str_eq id i)
              (is_subscribed i email users))

  pub is_subscribed-pull :
      (id : String)
      → is_subscribed i email (change y (unsubscribe id) users)
        ≡ not (str_eq y email && str_eq id i) && is_subscribed i email users
  is_subscribed-pull id =
      is_subscribed-change (unsubscribe id)
      ∙ (ap (λ (b : Bool). if str_eq y email then b else is_subscribed i email users)
            (pulled-has_group id i (field users email))
          ∙ if-and (str_eq y email) (str_eq id i) (is_subscribed i email users))

pub is_subscribed-unsubscribe_all :
    (emails : List String) (users : List (String × User)) (id i email : String)
    → is_subscribed i email (unsubscribe_all id emails users)
      ≡ not (str_eq id i && mem_text email emails) && is_subscribed i email users
unfolding unsubscribe_all
is_subscribed-unsubscribe_all [] users id i email = ground arith
is_subscribed-unsubscribe_all (y ∷ emails) users id i email =
    is_subscribed-unsubscribe_all emails (change y (unsubscribe id) users) id i email
    ∙ (ap (λ (b : Bool). not (str_eq id i && mem_text email emails) && b)
          (is_subscribed-pull users y i email id)
        ∙ ground arith)

pub is_member-delete :
    (groups : List (String × Members)) (id i email : String)
    → is_member i email (delete_field groups id) ≡ not (str_eq id i) && is_member i email groups
is_member-delete groups id i email =
    ap (has_user email) (field-delete_field groups id i)
    ∙ (ap-if (has_user email) (str_eq id i) none (field groups i)
        ∙ if-none (str_eq id i) (is_member i email groups))

-- the groups and the users agree
unfoldable pub Linked : Db → Type 0
Linked db = (id email : String) → is_member id email db.groups ≡ is_subscribed id email db.users
