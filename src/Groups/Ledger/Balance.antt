-- ===== src/Groups/Ledger/Balance.antt =====
-- What an owner has consumed is what its groups last together and how many they are.
use mathlib.Core.Path.{subst}
use mercury_farm.Base.{
  ℕ, ◌+◌, ◌≡◌, refl, sym, ◌∙◌, Bool, true, false, Option, none, some, List, arith, if◌then◌else◌,
  if-cases,
}
use mercury_farm.Base.Int.{pos, ◌+ℤ◌}
use mercury_farm.Base.Text.{String, str_eq, field}
use mercury_farm.Groups.Types.{Group}
use mercury_farm.Groups.Quotas.{Quotas, affords, update_duration, is_charged, charges, update}
use mercury_farm.Groups.Quotas.Bounds.{Within, update-Within}
use mercury_farm.Groups.Ledger.{Db, change_user, change_group, get_group, delete_group}
use mercury_farm.Groups.Ledger.Accounts.{
  amount, owned, held, map_option, field-change_user, owned-change_group, held-change_group,
  owned-delete_group,
}

pub record Kept (root email : String) (groups : List Group) (q : Quotas) : Type 0 where
  pub within : Within q
  pub of_duration : q.consumed_duration ≡ pos (owned email groups)
  pub of_number : q.consumed_number ≡ held root email groups

-- of an owner that is a user
abbrev pub Fits : String → String → List Group → Option Quotas → Type 0
Fits root email groups none = Unit {0}
Fits root email groups (some q) = Kept root email groups q

abbrev pub Balanced : String → Db → Type 0
Balanced root db = (email : String) → Fits root email db.groups (field db.users email)

Fits-changed :
    (root email : String) (groups later : List Group) (f : Quotas → Quotas) (b : Bool)
    (q : Option Quotas)
    → ((p : Quotas)
        → q ≡ some p
        → Kept root email groups p
        → Kept root email later (if b then f p else p))
    → Fits root email groups q
    → Fits root email later (if b then map_option f q else q)
Fits-changed root email groups later f true none k w = w
Fits-changed root email groups later f false none k w = w
Fits-changed root email groups later f true (some q) k w = k q refl w
Fits-changed root email groups later f false (some q) k w = k q refl w

pub changed-Balanced :
    (root owner : String) (f : Quotas → Quotas) (db : Db) (later : List Group)
    → Balanced root db
    → ((email : String) (q : Quotas)
        → field db.users email ≡ some q
        → Kept root email db.groups q
        → Kept root email later (if str_eq owner email then f q else q))
    → Balanced root (record { users = change_user owner f db.users; groups = later })
changed-Balanced root owner f db later b k email =
    subst (Fits root email later) (sym (field-change_user owner email f db.users)) (
      Fits-changed root email db.groups later f (str_eq owner email) (field db.users email)
        (k email) (b email))

pub if-Within :
    (b : Bool) (old new : ℕ) (q : Quotas)
    → Within q
    → Within (if b then update_duration old new q else q)
unfolding update
if-Within true old new q w = update-Within (charges old new) q w
if-Within false old new q w = w

pub if-number :
    (b : Bool) (old new : ℕ) (q : Quotas)
    → (if b then update_duration old new q else q).consumed_number ≡ q.consumed_number
unfolding update_duration
if-number true old new q =
    if-cases (λ (p : Quotas). p.consumed_number ≡ q.consumed_number) (affords old new q) (λ _. refl)
      (λ _. refl)
if-number false old new q = refl

charged-duration :
    (b : Bool) (old new rest before after : ℕ) (q : Quotas)
    → q.consumed_duration ≡ pos before
    → rest + amount b old ≡ before
    → after + amount b old ≡ before + amount b new
    → (b ≡ true → affords old new q ≡ true)
    → (if b then update_duration old new q else q).consumed_duration ≡ pos after
unfolding update_duration ◌+ℤ◌
charged-duration true old new rest before after q e r s a = rw (a refl) (rw e (ground arith))
charged-duration false old new rest before after q e r s a = ground arith

refused-duration :
    (b : Bool) (old new before : ℕ) (q : Quotas)
    → q.consumed_duration ≡ pos before
    → (b ≡ true → is_charged old new q ≡ false)
    → (if b then update_duration old new q else q).consumed_duration ≡ pos before
unfolding update_duration is_charged ◌+ℤ◌
refused-duration true old new before q e a = ground (arith, a refl)
refused-duration false old new before q e a = e

module _ (root email : String) (groups : List Group) (q : Quotas)
    (kept : Kept root email groups q) where
  -- the group changes, and its owner is charged the difference
  pub moved-Kept :
      (id : String) (f : Group → Group) (g : Group)
      → get_group id groups ≡ some g
      → (f g).owner ≡ g.owner
      → (f g).id ≡ g.id
      → (str_eq g.owner email ≡ true → affords g.duration (f g).duration q ≡ true)
      → Kept root email
          (change_group id f groups)
          (if str_eq g.owner email then update_duration g.duration (f g).duration q else q)
  moved-Kept id f g e o i a = record {
    within = if-Within (str_eq g.owner email) g.duration (f g).duration q kept.within;
    of_duration =
        charged-duration (str_eq g.owner email) g.duration (f g).duration
          (owned email (delete_group id groups)) (owned email groups)
          (owned email (change_group id f groups)) q kept.of_duration
          (owned-delete_group email id groups g e) (owned-change_group email id f groups g e o) a;
    of_number =
        if-number (str_eq g.owner email) g.duration (f g).duration q
        ∙ (kept.of_number ∙ sym (held-change_group root email id f groups g e o i));
  }

  -- what is refused, or changes nothing, leaves the user
  pub refused-Kept :
      (old new : ℕ) (b : Bool)
      → (b ≡ true → is_charged old new q ≡ false)
      → Kept root email groups (if b then update_duration old new q else q)
  refused-Kept old new b a = record {
    within = if-Within b old new q kept.within;
    of_duration = refused-duration b old new (owned email groups) q kept.of_duration a;
    of_number = if-number b old new q ∙ kept.of_number;
  }
