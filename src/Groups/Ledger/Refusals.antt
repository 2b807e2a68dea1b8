-- ===== src/Groups/Ledger/Refusals.antt =====
-- Calls that are refused after the owner was charged.
use mathlib.Core.Path.{subst}
use mercury_farm.Base.{
  ℕ, zero, suc, ◌+◌, ◌*◌, ◌<◌, ◌≡◌, refl, sym, ap, ◌∙◌, Bool, true, false, not, ◌&&◌, ◌||◌, Option,
  none, some, List, [], ◌∷◌, arith, leb, ◌==◌, if-cases, Bool-cases, inl, inr, is_some, length,
}
use mercury_farm.Base.Int.{ℤ, pos, negsuc, pos_part, neg_part, ◌+ℤ◌, sub_ℕ, leb_ℤ}
use mercury_farm.Base.Text.{String, eq_refl, field}
use mercury_farm.Groups.Types.{Group}
use mercury_farm.Groups.Rules.{compute_duration}
use mercury_farm.Groups.Overlap.{check_dates_overlaps}
use mercury_farm.Groups.Quotas.{Quotas, charged, affords, update_duration}
use mercury_farm.Groups.Ledger.{
  Db, get_group, charge, is_modified, rivals, Added, dates_overlap, add_charged, add_priced,
  add_group_devices, Data, update_user_group, Call, updates, call_on, step, run,
}
use mercury_farm.Groups.Ledger.Owners.{is_charged-affords}
use mercury_farm.Groups.Ledger.Accounts.{field-change_user}

charge-field :
    (owner : String) (old new : ℕ) (q : Quotas) (db : Db)
    → field db.users owner ≡ some q
    → affords old new q ≡ true
    → field (charge owner old new db).users owner
      ≡ some (record q { consumed_duration = charged old new q })
unfolding update_duration
charge-field owner old new q db e a =
    field-change_user owner owner (update_duration old new) db.users
    ∙ rw (eq_refl owner) (rw e (rw a refl))

refused-step :
    (root : String) (d : Data) (g : Group) (db : Db)
    → get_group g.id db.groups ≡ some g
    → g.duration == d.duration ≡ false
    → step root (updates g.id d) db ≡ charge g.owner g.duration d.duration db
unfolding step call_on update_user_group
refused-step root d g db f e = rw f (
    if-cases (λ (c : Bool × Db). c.1 ≡ charge g.owner g.duration d.duration db)
      ((not (is_modified g.duration d.duration (field db.users g.owner))
          && not (is_some (field db.users g.owner)))
        || not (g.duration == d.duration))
      (λ _. refl) (λ h. ground arith))

sub_ℕ-parts : (c : ℤ) (a b : ℕ) → c +ℤ sub_ℕ a b ≡ sub_ℕ (pos_part c + a) (neg_part c + b)
unfolding ◌+ℤ◌
sub_ℕ-parts (pos n) a b = ground arith
sub_ℕ-parts (negsuc n) a b = ground arith

sub_ℕ-again : (m k x y : ℕ) → sub_ℕ m k +ℤ sub_ℕ x y ≡ sub_ℕ (m + x) (k + y)
unfolding ◌+ℤ◌
sub_ℕ-again m k x y = elim (Bool-cases (leb k m)) [
  | inl h ↦ rw h (ground arith)
  | inr h ↦ rw h (ground arith)
]

sum-again :
    (c : ℤ) (n new old : ℕ)
    → (c +ℤ sub_ℕ new old) +ℤ sub_ℕ (n * new) (n * old) ≡ c +ℤ sub_ℕ (suc n * new) (suc n * old)
sum-again c n new old =
    ap (λ (z : ℤ). z +ℤ sub_ℕ (n * new) (n * old)) (sub_ℕ-parts c new old)
    ∙ (sub_ℕ-again (pos_part c + new) (neg_part c + old) (n * new) (n * old)
        ∙ (ap (λ (z : ℕ). sub_ℕ z (neg_part c + old + n * old)) (omega arith)
            ∙ (ap (λ (z : ℕ). sub_ℕ (pos_part c + suc n * new) z) (omega arith)
                ∙ sym (sub_ℕ-parts c (suc n * new) (suc n * old)))))

sum-zero : (c : ℤ) (a b : ℕ) → c +ℤ sub_ℕ (0 * a) (0 * b) ≡ c
unfolding ◌+ℤ◌
sum-zero c a b = ground arith

less-charged :
    (old new : ℕ) (c : ℤ) (n : ℕ)
    → new < old
    → leb_ℤ c (pos n) ≡ true
    → leb_ℤ (c +ℤ sub_ℕ new old) (pos n) ≡ true
unfolding ◌+ℤ◌
less-charged old new c n h w = ground arith

abbrev pub again : ℕ → Call → List Call
again zero call = []
again (suc n) call = call ∷ again n call

-- the groups are as before, and the owner has consumed something else
abbrev pub IsRecharged : Db → Group → Quotas → ℤ → Db → Type 0
IsRecharged db g q consumed later =
    (later.groups ≡ db.groups)
    × (field later.users g.owner ≡ some (record q { consumed_duration = consumed }))

-- An update to a shorter duration, of a group whose owner is a user within the allocated duration,
-- changes no group, and made n times in a row it takes n times the difference off what the owner
-- has consumed, below 0 too.
pub update-is_free :
    (n : ℕ) (root : String) (d : Data) (g : Group) (db : Db) (q : Quotas)
    → get_group g.id db.groups ≡ some g
    → field db.users g.owner ≡ some q
    → d.duration < g.duration
    → leb_ℤ q.consumed_duration (pos q.allocated_duration) ≡ true
    → IsRecharged db g q
        (q.consumed_duration +ℤ sub_ℕ (n * d.duration) (n * g.duration))
        (run root (again n (updates g.id d)) db)
unfolding run
update-is_free zero root d g db q f e h w = (
  refl,
  e
      ∙ ap (λ (c : ℤ). some (record q { consumed_duration = c }))
          (sym (sum-zero q.consumed_duration d.duration g.duration)),
)
update-is_free (suc n) root d g db q f e h w =
    let less = less-charged g.duration d.duration q.consumed_duration q.allocated_duration h w in
    subst
      (λ (x : Db).
        IsRecharged db g q (q.consumed_duration +ℤ sub_ℕ (suc n * d.duration) (suc n * g.duration))
          (run root (again n (updates g.id d)) x))
      (sym (refused-step root d g db f (ground arith)))
      (subst
        (λ (c : ℤ).
          IsRecharged db g q c
            (run root (again n (updates g.id d)) (charge g.owner g.duration d.duration db)))
        (sum-again q.consumed_duration n d.duration g.duration)
        (update-is_free n root d g (charge g.owner g.duration d.duration db)
          (record q { consumed_duration = charged g.duration d.duration q }) f
          (charge-field g.owner g.duration d.duration q db e less) h less))

add_charged-IsRecharged :
    (g : Group) (serials : List String) (db : Db) (q : Quotas) (duration : ℕ)
    → field db.users g.owner ≡ some q
    → is_modified g.duration duration (field db.users g.owner) ≡ true
    → (add_charged g duration serials db).0 ≡ dates_overlap
    → IsRecharged db g q (charged g.duration duration q) (add_charged g duration serials db).1
unfolding add_charged is_modified
add_charged-IsRecharged g serials db q duration e m =
    if-cases
      (λ (c : Added × Db).
        c.0 ≡ dates_overlap → IsRecharged db g q (charged g.duration duration q) c.1)
      (is_some (check_dates_overlaps g (rivals serials db.groups)))
      (λ _ _. (
        refl,
        charge-field g.owner g.duration duration q db e (
            is_charged-affords g.duration duration q
              (ap (is_modified g.duration duration) (sym e) ∙ m)),
      ))
      (λ _ r. cc)

add_priced-IsRecharged :
    (g : Group) (serials : List String) (db : Db) (q : Quotas) (price : Option ℕ)
    → field db.users g.owner ≡ some q
    → (add_priced g price serials db).0 ≡ dates_overlap
    → (duration : ℕ) × (price ≡ some duration)
      × IsRecharged db g q (charged g.duration duration q) (add_priced g price serials db).1
unfolding add_priced
add_priced-IsRecharged g serials db q none e = λ r. cc
add_priced-IsRecharged g serials db q (some duration) e =
    if-cases
      (λ (c : Added × Db).
        c.0 ≡ dates_overlap
        → (n : ℕ) × (some duration ≡ some n) × IsRecharged db g q (charged g.duration n q) c.1)
      (is_modified g.duration duration (field db.users g.owner))
      (λ m r. (duration, refl, add_charged-IsRecharged g serials db q duration e m r)) (λ _ r. cc)

-- An addition of devices that ends in overlapping dates changes no group, but the owner, if it is
-- a user, has been charged for the devices.
pub overlap-keeps_charge :
    (g : Group) (serials : List String) (db : Db) (q : Quotas)
    → field db.users g.owner ≡ some q
    → (add_group_devices g serials db).0 ≡ dates_overlap
    → (duration : ℕ) × (compute_duration g (length serials) ≡ some duration)
      × IsRecharged db g q (charged g.duration duration q) (add_group_devices g serials db).1
unfolding add_group_devices
overlap-keeps_charge g serials db q e =
    if-cases
      (λ (c : Added × Db).
        c.0 ≡ dates_overlap
        → (n : ℕ) × (compute_duration g (length serials) ≡ some n)
          × IsRecharged db g q (charged g.duration n q) c.1)
      (length serials == 0) (λ _ r. cc)
      (λ _. add_priced-IsRecharged g serials db q (compute_duration g (length serials)) e)
