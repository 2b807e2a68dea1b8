-- ===== src/Groups/Ledger/Accounts.antt =====
-- The durations and the number of an owner's groups, as groups are changed, made and deleted.
use mercury_farm.Base.{
  ℕ, ◌+◌, ◌≡◌, refl, ap, Bool, true, false, not, ◌&&◌, Option, none, some, List, [], ◌∷◌, ◌++◌,
  arith, if◌then◌else◌, Bool-cases, inl, inr,
}
use mercury_farm.Base.Text.{String, str_eq, eq_iff, field}
use mathlib.Core.Option.{some-injective}
use mercury_farm.Groups.Types.{Group}
use mercury_farm.Groups.Quotas.{Quotas}
use mercury_farm.Groups.Ledger.{change_user, change_group, get_group, delete_group}

abbrev pub amount : Bool → ℕ → ℕ
amount b n = if b then n else 0

-- what an owner's groups last together
unfoldable pub owned : String → List Group → ℕ
owned email [] = 0
owned email (g ∷ groups) = amount (str_eq g.owner email) g.duration + owned email groups

abbrev pub counts : String → String → Group → ℕ
counts root email g = amount (str_eq g.owner email && not (str_eq g.id root)) 1

-- how many an owner has, the root group aside
unfoldable pub held : String → String → List Group → ℕ
held root email [] = 0
held root email (g ∷ groups) = counts root email g + held root email groups

abbrev pub map_option : (Quotas → Quotas) → Option Quotas → Option Quotas
map_option f none = none
map_option f (some q) = some (f q)

pub field-change_user :
    (email other : String) (f : Quotas → Quotas) (users : List (String × Quotas))
    → field (change_user email f users) other
      ≡ (if str_eq email other then map_option f (field users other) else field users other)
unfolding field change_user
field-change_user email other f [] = ground arith
field-change_user email other f (u ∷ users) = ground (
  arith,
  field-change_user email other f users,
  eq_iff u.0 email,
  eq_iff u.0 other,
  eq_iff email other,
)

picks-here :
    (b : Bool) (h g : Group) (r : Option Group)
    → b ≡ true
    → (if b then some h else r) ≡ some g
    → h ≡ g
picks-here true h g r t e = some-injective _ _ e
picks-here false h g r t e = cc

picks-later :
    (b : Bool) (h g : Group) (r : Option Group)
    → b ≡ false
    → (if b then some h else r) ≡ some g
    → r ≡ some g
picks-later true h g r t e = cc
picks-later false h g r t e = e

pub owned-change_group :
    (email id : String) (f : Group → Group) (groups : List Group) (g : Group)
    → get_group id groups ≡ some g
    → (f g).owner ≡ g.owner
    → owned email (change_group id f groups) + amount (str_eq g.owner email) g.duration
      ≡ owned email groups + amount (str_eq g.owner email) (f g).duration
unfolding owned change_group get_group
owned-change_group email id f [] g e o = cc
owned-change_group email id f (h ∷ groups) g e o = elim (Bool-cases (str_eq h.id id)) [
  | inl t ↦
      let same : h ≡ g = picks-here (str_eq h.id id) h g (get_group id groups) t e in
      rw t (
        ground (
          arith,
          o,
          ap (λ (x : Group). x.owner) same,
          ap (λ (x : Group). (f x).owner) same,
          ap (λ (x : Group). x.duration) same,
          ap (λ (x : Group). (f x).duration) same,
        ))
  | inr t ↦ rw t (
      omega (
        arith,
        owned-change_group email id f groups g
            (picks-later (str_eq h.id id) h g (get_group id groups) t e) o,
      ))
]

pub held-change_group :
    (root email id : String) (f : Group → Group) (groups : List Group) (g : Group)
    → get_group id groups ≡ some g
    → (f g).owner ≡ g.owner
    → (f g).id ≡ g.id
    → held root email (change_group id f groups) ≡ held root email groups
unfolding held change_group get_group
held-change_group root email id f [] g e o i = refl
held-change_group root email id f (h ∷ groups) g e o i = elim (Bool-cases (str_eq h.id id)) [
  | inl t ↦
      let same : h ≡ g = picks-here (str_eq h.id id) h g (get_group id groups) t e in
      rw t (
        ground (
          arith,
          o,
          i,
          ap (λ (x : Group). x.owner) same,
          ap (λ (x : Group). (f x).owner) same,
          ap (λ (x : Group). x.id) same,
          ap (λ (x : Group). (f x).id) same,
        ))
  | inr t ↦ rw t (
      ap (λ (n : ℕ). counts root email h + n)
        (held-change_group root email id f groups g
          (picks-later (str_eq h.id id) h g (get_group id groups) t e) o i))
]

pub owned-delete_group :
    (email id : String) (groups : List Group) (g : Group)
    → get_group id groups ≡ some g
    → owned email (delete_group id groups) + amount (str_eq g.owner email) g.duration
      ≡ owned email groups
unfolding owned delete_group get_group
owned-delete_group email id [] g e = cc
owned-delete_group email id (h ∷ groups) g e = ground (arith, owned-delete_group email id groups g)

pub held-delete_group :
    (root email id : String) (groups : List Group) (g : Group)
    → get_group id groups ≡ some g
    → held root email (delete_group id groups) + counts root email g ≡ held root email groups
unfolding held delete_group get_group
held-delete_group root email id [] g e = cc
held-delete_group root email id (h ∷ groups) g e =
    ground (arith, held-delete_group root email id groups g)

pub owned-append :
    (email : String) (groups : List Group) (g : Group)
    → owned email (groups ++ g ∷ []) ≡ owned email groups + amount (str_eq g.owner email) g.duration
unfolding owned
owned-append email [] g = omega arith
owned-append email (h ∷ groups) g = omega (arith, owned-append email groups g)

pub held-append :
    (root email : String) (groups : List Group) (g : Group)
    → held root email (groups ++ g ∷ []) ≡ held root email groups + counts root email g
unfolding held
held-append root email [] g = omega arith
held-append root email (h ∷ groups) g = omega (arith, held-append root email groups g)

pub get_group-id :
    (id : String) (groups : List Group) (g : Group) → get_group id groups ≡ some g → g.id ≡ id
unfolding get_group
get_group-id id [] g e = cc
get_group-id id (h ∷ groups) g e = ground (arith, get_group-id id groups g, eq_iff h.id id)

pub change_user-change_user :
    (email : String) (f g : Quotas → Quotas) (users : List (String × Quotas))
    → change_user email f (change_user email g users) ≡ change_user email (λ q. f (g q)) users
unfolding change_user
change_user-change_user email f g [] = refl
change_user-change_user email f g (u ∷ users) =
    ground (arith, change_user-change_user email f g users)
