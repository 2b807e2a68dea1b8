-- ===== src/Groups/Membership/Additions.antt =====
-- Users that are added to groups, and groups and users that are new.
use mercury_farm.Base.{
  ◌≡◌, refl, sym, ap, ◌∙◌, Bool, true, false, not, ◌&&◌, ◌||◌, Option, none, some, List, arith,
  if◌then◌else◌, if-cases, is_some, Bool-cases, inl, inr,
}
use mercury_farm.Base.Text.{String, str_eq, eq_iff, eq_refl, mem_text, field, set_field}
use mercury_farm.Groups.Membership.{Members, User, change, add_to_set, subscribe}
use mercury_farm.Groups.Membership.Relation.{
  has_user, has_group, map_value, field-change, is_member, is_subscribed, is_member-add,
  is_subscribed-add,
}

has_key :
    {V : Type 0}
    → (pairs : List (String × V)) (key other : String) → is_some (field pairs key) ≡ true
    → str_eq key other ≡ true
    → is_some (field pairs other) ≡ true
has_key pairs key other h e =
    ap (λ (k : String). is_some (field pairs k)) (sym ((eq_iff key other).0 e)) ∙ h

is_some-map_value : {V : Type 0} → (f : V → V) (o : Option V) → is_some (map_value f o) ≡ is_some o
is_some-map_value f none = refl
is_some-map_value f (some v) = refl

pub has_key-change :
    {V : Type 0}
    → (pairs : List (String × V)) (key other : String) (f : V → V)
    → is_some (field (change key f pairs) other) ≡ is_some (field pairs other)
has_key-change pairs key other f =
    ap is_some (field-change pairs key other f)
    ∙ if-cases (λ (o : Option _). is_some o ≡ is_some (field pairs other)) (str_eq key other)
        (λ _. is_some-map_value f (field pairs other)) (λ _. refl)

and-or : (a b p m : Bool) → (a ≡ true → p ≡ true) → (a && (p && b)) || m ≡ (a && b) || m
and-or true b p m h = ap (λ (q : Bool). (q && b) || m) (h refl)
and-or false b p m h = refl

and_comm : (a b m : Bool) → (b && a) || m ≡ (a && b) || m
and_comm a b m = ground arith

-- `addGroupUser`, of a group and of a user that are there
pub add-is_member :
    (groups : List (String × Members)) (id y i email : String)
    → is_some (field groups id) ≡ true
    → is_member i email (change id (λ g. record g { users = add_to_set y g.users }) groups)
      ≡ (str_eq id i && str_eq y email) || is_member i email groups
add-is_member groups id y i email g =
    is_member-add groups id i email y
    ∙ and-or (str_eq id i) (str_eq y email) (is_some (field groups i)) (is_member i email groups)
        (has_key groups id i g)

pub add-is_subscribed :
    (users : List (String × User)) (id y i email : String)
    → is_some (field users y) ≡ true
    → is_subscribed i email (change y (subscribe id) users)
      ≡ (str_eq id i && str_eq y email) || is_subscribed i email users
add-is_subscribed users id y i email u =
    is_subscribed-add users y i email id
    ∙ (and-or (str_eq y email) (str_eq id i) (is_some (field users email))
          (is_subscribed i email users) (has_key users y email u)
        ∙ and_comm (str_eq id i) (str_eq y email) (is_subscribed i email users))

pub new_key :
    {V : Type 0}
    → (pairs : List (String × V)) (key : String) (v : V)
    → is_some (field (set_field pairs key v) key) ≡ true
unfolding field
new_key pairs key v =
    ap (λ (b : Bool). is_some (if b then some v else field pairs key)) (eq_refl key)

absent :
    {V : Type 0}
    → (pairs : List (String × V)) (key other : String) → is_some (field pairs key) ≡ false
    → str_eq key other ≡ true
    → is_some (field pairs other) ≡ false
absent pairs key other h e =
    ap (λ (k : String). is_some (field pairs k)) (sym ((eq_iff key other).0 e)) ∙ h

no_group : (i : String) (u : Option User) → is_some u ≡ false → has_group i u ≡ false
no_group i none h = refl
no_group i (some u) h = cc

no_user : (email : String) (g : Option Members) → is_some g ≡ false → has_user email g ≡ false
no_user email none h = refl
no_user email (some g) h = cc

-- a user that is not there yet, and is in no group
pub new-is_subscribed :
    (users : List (String × User)) (y i email : String) (new : User)
    → is_some (field users y) ≡ false
    → ((id : String) → mem_text id new.subscribed ≡ false)
    → is_subscribed i email (set_field users y new) ≡ is_subscribed i email users
unfolding field
new-is_subscribed users y i email new u n =
    if-cases (λ (o : Option User). has_group i o ≡ is_subscribed i email users) (str_eq y email)
      (λ e. n i ∙ sym (no_group i (field users email) (absent users y email u e))) (λ _. refl)

pub new-is_member :
    (groups : List (String × Members)) (id i email : String) (new : Members)
    → is_some (field groups id) ≡ false
    → is_member i email (set_field groups id new)
      ≡ (str_eq id i && mem_text email new.users) || is_member i email groups
unfolding field
new-is_member groups id i email new g = elim (Bool-cases (str_eq id i)) [
  | inl e ↦ rw e (ground (arith, no_user email (field groups i) (absent groups id i g e)))
  | inr e ↦ rw e refl
]

pub twice-or :
    (a o r n m s : Bool)
    → n ≡ o || (r || false)
    → m ≡ s
    → (a && r) || ((a && o) || ((a && n) || m)) ≡ (a && r) || ((a && o) || s)
twice-or a o r n m s e f = ground arith

-- what a deletion and an unsubscription of the members leave
pub rest-agree : (a b m s : Bool) → m ≡ s → (a ≡ true → m ≡ b) → not a && m ≡ not (a && b) && s
rest-agree true true m s e h = refl
rest-agree true false m s e h = sym (sym e ∙ h refl)
rest-agree false b m s e h = e
