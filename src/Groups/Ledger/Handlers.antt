-- ===== src/Groups/Ledger/Handlers.antt =====
-- What each call leaves of the balance between what owners have consumed and their groups.
use mathlib.Core.Path.{subst}
use mercury_farm.Base.{
  ℕ, ◌≡◌, refl, sym, Bool, true, false, not, ◌&&◌, ◌||◌, Option, none, some, List, [], ◌∷◌, ◌++◌,
  arith, leb, ◌==◌, if-cases, is_some, length,
}
use mercury_farm.Base.Text.{String, str_eq, field}
use mercury_farm.Groups.Types.{Group}
use mercury_farm.Groups.Rules.{compute_duration}
use mercury_farm.Groups.Overlap.{check_dates_overlaps}
use mercury_farm.Groups.Quotas.{Quotas, reserve, is_reserved, release, affords, update_duration}
use mercury_farm.Groups.Ledger.{
  Db, change_group, get_group, delete_group, charge, is_modified, rivals, uniq, difference,
  compute_duration_less, Added, dates_overlap, add_charged, add_priced, add_group_devices,
  remove_priced, remove_group_devices, Data, with_data, update_user_group, create_reserved,
  create_user_group, fresh, deleted,
}
use mercury_farm.Groups.Ledger.Accounts.{change_user-change_user}
use mercury_farm.Groups.Ledger.Owners.{
  is_modified-Kept, same-is_modified, is_charged-affords, Kept-affords, deleted-Kept, created-Kept,
  full-Kept, same-owner,
}
use mercury_farm.Groups.Ledger.Balance.{Kept, Balanced, changed-Balanced, moved-Kept, refused-Kept}

abbrev pub is_overlap : Added → Bool
is_overlap dates_overlap = true
is_overlap _ = false

abbrev pub is_at_most : ℕ → Option ℕ → Bool
is_at_most old none = true
is_at_most old (some new) = leb new old

module _ (root : String) (db : Db) (g : Group) (b : Balanced root db) where
  pub refused-Balanced :
      (old new : ℕ)
      → is_modified old new (field db.users g.owner) ≡ false
      → Balanced root (charge g.owner old new db)
  refused-Balanced old new m =
      changed-Balanced root g.owner (update_duration old new) db db.groups b (λ email q e kept.
        refused-Kept root email db.groups q kept old new (str_eq g.owner email)
          (is_modified-Kept g.owner email db.users q old new false m e))

  module _ (found : get_group g.id db.groups ≡ some g) where
    pub moved-Balanced :
        (f : Group → Group)
        → (f g).owner ≡ g.owner
        → (f g).id ≡ g.id
        → ((email : String) (q : Quotas)
            → field db.users email ≡ some q
            → Kept root email db.groups q
            → str_eq g.owner email ≡ true
            → affords g.duration (f g).duration q ≡ true)
        → Balanced root (record (charge g.owner g.duration (f g).duration db) {
          groups = change_group g.id f db.groups;
        })
    moved-Balanced f o i a =
        changed-Balanced root g.owner (update_duration g.duration (f g).duration) db
          (change_group g.id f db.groups) b
          (λ email q e kept.
            moved-Kept root email db.groups q kept g.id f g found o i (a email q e kept))

    add_charged-Balanced :
        (duration : ℕ) (serials : List String)
        → is_modified g.duration duration (field db.users g.owner) ≡ true
        → not (is_overlap (add_charged g duration serials db).0) ≡ true
        → Balanced root (add_charged g duration serials db).1
    unfolding add_charged
    add_charged-Balanced duration serials m =
        if-cases (λ (c : Added × Db). not (is_overlap c.0) ≡ true → Balanced root c.1)
          (is_some (check_dates_overlaps g (rivals serials db.groups))) (λ _ r. cc)
          (λ _ _.
            moved-Balanced
              (λ h. record h { duration = duration; devices = uniq (g.devices ++ serials) }) refl
              refl
              (λ email q e kept s.
                is_charged-affords g.duration duration q
                  (is_modified-Kept g.owner email db.users q g.duration duration true m e s)))

    add_priced-Balanced :
        (price : Option ℕ) (serials : List String)
        → not (is_overlap (add_priced g price serials db).0) ≡ true
        → Balanced root (add_priced g price serials db).1
    unfolding add_priced
    add_priced-Balanced none serials = λ _. b
    add_priced-Balanced (some duration) serials =
        if-cases (λ (c : Added × Db). not (is_overlap c.0) ≡ true → Balanced root c.1)
          (is_modified g.duration duration (field db.users g.owner))
          (λ m. add_charged-Balanced duration serials m)
          (λ m _. refused-Balanced g.duration duration m)

    pub add_group_devices-Balanced :
        (serials : List String)
        → not (is_overlap (add_group_devices g serials db).0) ≡ true
        → Balanced root (add_group_devices g serials db).1
    unfolding add_group_devices
    add_group_devices-Balanced serials =
        if-cases (λ (c : Added × Db). not (is_overlap c.0) ≡ true → Balanced root c.1)
          (length serials == 0) (λ _ _. b)
          (λ _. add_priced-Balanced (compute_duration g (length serials)) serials)

    remove_priced-Balanced :
        (price : Option ℕ) (serials : List String)
        → is_at_most g.duration price ≡ true
        → Balanced root (remove_priced g price serials db)
    unfolding remove_priced
    remove_priced-Balanced none serials r = b
    remove_priced-Balanced (some duration) serials r =
        moved-Balanced
          (λ h. record h { duration = duration; devices = difference g.devices serials }) refl refl
          (λ email q e kept s. Kept-affords root email db.groups g duration q kept found r s)

    pub remove_group_devices-Balanced :
        (serials : List String)
        → is_at_most g.duration (compute_duration_less g (length serials)) ≡ true
        → Balanced root (remove_group_devices g serials db)
    unfolding remove_group_devices
    remove_group_devices-Balanced serials r =
        remove_priced-Balanced (compute_duration_less g (length serials)) serials r

    pub update_user_group-Balanced :
        (d : Data) → g.duration == d.duration ≡ true → Balanced root (update_user_group g d db).1
    unfolding update_user_group
    update_user_group-Balanced d r =
        if-cases (λ (c : Bool × Db). Balanced root c.1)
          ((not (is_modified g.duration d.duration (field db.users g.owner))
              && not (is_some (field db.users g.owner)))
            || not (g.duration == d.duration))
          (λ h.
            refused-Balanced g.duration d.duration
              (same-is_modified g.duration d.duration (field db.users g.owner) r))
          (λ _. moved-Balanced (with_data d) refl refl (λ email q e kept s.
            Kept-affords root email db.groups g d.duration q kept found (ground arith) s))

    pub deleted-Balanced : not (str_eq g.id root) ≡ true → Balanced root (deleted g db)
    unfolding deleted
    deleted-Balanced other =
        subst
          (λ users. Balanced root (record { users = users; groups = delete_group g.id db.groups }))
          (sym (change_user-change_user g.owner (update_duration g.duration 0) release db.users))
          (changed-Balanced root g.owner (λ q. update_duration g.duration 0 (release q)) db
            (delete_group g.id db.groups) b
            (λ email q e kept. deleted-Kept root email db.groups g q kept found other))

module _ (root : String) (g : Group) (db : Db) (b : Balanced root db) (z : g.duration ≡ 0)
    (other : not (str_eq g.id root) ≡ true) where
  create_reserved-Balanced :
      (owner : Option Quotas)
      → field db.users g.owner ≡ owner
      → Balanced root (create_reserved g owner db).1
  unfolding create_reserved
  create_reserved-Balanced none e = b
  create_reserved-Balanced (some p) e =
      if-cases (λ (c : Bool × Db). Balanced root c.1) (is_reserved p)
        (λ r.
          changed-Balanced root g.owner reserve db (db.groups ++ fresh g ∷ []) b (λ email q h kept.
            created-Kept root email db.groups g q kept z other (λ s.
              subst (λ (x : Quotas). is_reserved x ≡ true)
                (same-owner g.owner email db.users p q e h s) r)))
        (λ r. changed-Balanced root g.owner reserve db db.groups b (λ email q h kept.
          full-Kept root email db.groups (str_eq g.owner email) q kept (λ s.
            subst (λ (x : Quotas). is_reserved x ≡ false)
              (same-owner g.owner email db.users p q e h s) r)))

  pub create_user_group-Balanced : Balanced root (create_user_group g db).1
  unfolding create_user_group
  create_user_group-Balanced = create_reserved-Balanced (field db.users g.owner) refl
