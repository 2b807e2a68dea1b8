-- ===== src/Groups/Ledger/Owners.antt =====
-- What a change of a group does to the quotas of its owner.
use mathlib.Core.Option.{some-injective}
use mercury_farm.Base.{
  ℕ, ◌+◌, ◌≤◌, ◌≡◌, refl, sym, ap, ◌∙◌, Bool, true, false, not, ◌&&◌, Option, none, some, List, [],
  ◌∷◌, ◌++◌, arith, leb, ◌==◌, if◌then◌else◌, if-cases,
}
use mercury_farm.Base.Int.{ℤ, pos, ◌+ℤ◌, leb_ℤ}
use mercury_farm.Base.Text.{String, str_eq, eq_iff, field}
use mercury_farm.Groups.Types.{Group}
use mercury_farm.Groups.Quotas.{
  Quotas, reserve, is_reserved, release, affords, update_duration, is_charged, charges, releases,
  reserves, update,
}
use mercury_farm.Groups.Quotas.Bounds.{Within, update-Within}
use mercury_farm.Groups.Ledger.{get_group, delete_group, is_modified, fresh}
use mercury_farm.Groups.Ledger.Accounts.{
  amount, owned, held, owned-delete_group, held-delete_group, owned-append, held-append,
}
use mercury_farm.Groups.Ledger.Balance.{Kept}

-- the owner is the user that the test looked at
pub is_modified-Kept :
    (owner email : String) (users : List (String × Quotas)) (q : Quotas) (old new : ℕ) (b : Bool)
    → is_modified old new (field users owner) ≡ b
    → field users email ≡ some q
    → str_eq owner email ≡ true
    → is_charged old new q ≡ b
unfolding is_modified
is_modified-Kept owner email users q old new b m e s =
    ap (is_modified old new) (sym (ap (field users) ((eq_iff owner email).0 s) ∙ e)) ∙ m

pub is_charged-affords :
    (old new : ℕ) (q : Quotas) → is_charged old new q ≡ true → affords old new q ≡ true
unfolding is_charged
is_charged-affords old new q e = ground arith

pub same-is_modified :
    (old new : ℕ) (q : Option Quotas) → old == new ≡ true → is_modified old new q ≡ false
unfolding is_modified is_charged
same-is_modified old new none e = refl
same-is_modified old new (some q) e = ground arith

less-affords :
    (old new rest before : ℕ) (q : Quotas)
    → q.consumed_duration ≡ pos before
    → leb_ℤ q.consumed_duration (pos q.allocated_duration) ≡ true
    → rest + old ≡ before
    → leb new old ≡ true
    → affords old new q ≡ true
unfolding ◌+ℤ◌
less-affords old new rest before q e w o r =
    rw e (ground (arith, ap (λ (n : ℤ). leb_ℤ n (pos q.allocated_duration)) e))

-- no more than before can be afforded
pub Kept-affords :
    (root email : String) (groups : List Group) (g : Group) (new : ℕ) (q : Quotas)
    → Kept root email groups q
    → get_group g.id groups ≡ some g
    → leb new g.duration ≡ true
    → str_eq g.owner email ≡ true
    → affords g.duration new q ≡ true
Kept-affords root email groups g new q kept found r s =
    less-affords g.duration new (owned email (delete_group g.id groups)) (owned email groups) q
      kept.of_duration kept.within.of_duration
      (ap (λ (c : Bool). owned email (delete_group g.id groups) + amount c g.duration) (sym s)
        ∙ owned-delete_group email g.id groups g found)
      r

release-duration :
    (b : Bool) (old rest before : ℕ) (q : Quotas)
    → q.consumed_duration ≡ pos before
    → leb_ℤ q.consumed_duration (pos q.allocated_duration) ≡ true
    → rest + amount b old ≡ before
    → (if b then update_duration old 0 (release q) else q).consumed_duration ≡ pos rest
unfolding update_duration release ◌+ℤ◌
release-duration true old rest before q e w o =
    rw (less-affords old 0 rest before q e w o (ground arith)) (rw e (ground arith))
release-duration false old rest before q e w o = e ∙ ap pos (omega arith)

release-number :
    (b other : Bool) (old rest before : ℕ) (q : Quotas)
    → q.consumed_number ≡ before
    → rest + amount (b && other) 1 ≡ before
    → other ≡ true
    → (if b then update_duration old 0 (release q) else q).consumed_number ≡ rest
unfolding update_duration release
release-number true other old rest before q e o t =
    if-cases (λ (p : Quotas). p.consumed_number ≡ rest) (affords old 0 (release q))
      (λ _. ground arith) (λ _. ground arith)
release-number false other old rest before q e o t = omega arith

release-Within :
    (b : Bool) (old : ℕ) (q : Quotas)
    → Within q
    → Within (if b then update_duration old 0 (release q) else q)
unfolding update
release-Within true old q w = update-Within (charges old 0) (release q) (update-Within releases q w)
release-Within false old q w = w

pub deleted-Kept :
    (root email : String) (groups : List Group) (g : Group) (q : Quotas)
    → Kept root email groups q
    → get_group g.id groups ≡ some g
    → not (str_eq g.id root) ≡ true
    → Kept root email
        (delete_group g.id groups)
        (if str_eq g.owner email then update_duration g.duration 0 (release q) else q)
deleted-Kept root email groups g q kept found other = record {
  within = release-Within (str_eq g.owner email) g.duration q kept.within;
  of_duration =
      release-duration (str_eq g.owner email) g.duration (owned email (delete_group g.id groups))
        (owned email groups) q kept.of_duration kept.within.of_duration
        (owned-delete_group email g.id groups g found);
  of_number =
      release-number (str_eq g.owner email) (not (str_eq g.id root)) g.duration
        (held root email (delete_group g.id groups)) (held root email groups) q kept.of_number
        (held-delete_group root email g.id groups g found) other;
}

reserve-number :
    (b other : Bool) (before after : ℕ) (q : Quotas)
    → q.consumed_number ≡ before
    → q.consumed_number ≤ q.allocated_number
    → after ≡ before + amount (b && other) 1
    → other ≡ true
    → (b ≡ true → is_reserved q ≡ true)
    → (if b then reserve q else q).consumed_number ≡ after
unfolding reserve is_reserved
reserve-number true other before after q e w o t r = ground (arith, r refl)
reserve-number false other before after q e w o t r = omega arith

full-number :
    (b : Bool) (before : ℕ) (q : Quotas)
    → q.consumed_number ≡ before
    → q.consumed_number ≤ q.allocated_number
    → (b ≡ true → is_reserved q ≡ false)
    → (if b then reserve q else q).consumed_number ≡ before
unfolding reserve is_reserved
full-number true before q e w r = ground (arith, r refl)
full-number false before q e w r = e

reserve-duration :
    (b : Bool) (q : Quotas) → (if b then reserve q else q).consumed_duration ≡ q.consumed_duration
unfolding reserve
reserve-duration true q = refl
reserve-duration false q = refl

reserve-Within : (b : Bool) (q : Quotas) → Within q → Within (if b then reserve q else q)
unfolding update
reserve-Within true q w = update-Within reserves q w
reserve-Within false q w = w

pub created-Kept :
    (root email : String) (groups : List Group) (g : Group) (q : Quotas)
    → Kept root email groups q
    → g.duration ≡ 0
    → not (str_eq g.id root) ≡ true
    → (str_eq g.owner email ≡ true → is_reserved q ≡ true)
    → Kept root email (groups ++ fresh g ∷ []) (if str_eq g.owner email then reserve q else q)
created-Kept root email groups g q kept z other r = record {
  within = reserve-Within (str_eq g.owner email) q kept.within;
  of_duration =
      reserve-duration (str_eq g.owner email) q
      ∙ (kept.of_duration ∙ ap pos (ground (arith, owned-append email groups (fresh g))));
  of_number =
      reserve-number (str_eq g.owner email) (not (str_eq g.id root)) (held root email groups)
        (held root email (groups ++ fresh g ∷ [])) q kept.of_number kept.within.of_number
        (held-append root email groups (fresh g)) other r;
}

pub full-Kept :
    (root email : String) (groups : List Group) (b : Bool) (q : Quotas)
    → Kept root email groups q
    → (b ≡ true → is_reserved q ≡ false)
    → Kept root email groups (if b then reserve q else q)
full-Kept root email groups b q kept r = record {
  within = reserve-Within b q kept.within;
  of_duration = reserve-duration b q ∙ kept.of_duration;
  of_number = full-number b (held root email groups) q kept.of_number kept.within.of_number r;
}

-- the owner is the user that was looked up
pub same-owner :
    (owner email : String) (users : List (String × Quotas)) (p q : Quotas)
    → field users owner ≡ some p
    → field users email ≡ some q
    → str_eq owner email ≡ true
    → p ≡ q
same-owner owner email users p q e h s =
    some-injective _ _ (sym e ∙ (ap (field users) ((eq_iff owner email).0 s) ∙ h))
