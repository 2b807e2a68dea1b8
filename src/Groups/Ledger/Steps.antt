-- ===== src/Groups/Ledger/Steps.antt =====
-- The calls that keep what owners have consumed in balance with their groups.
use mercury_farm.Base.{
  ◌≡◌, refl, ap, ◌∙◌, Bool, true, not, ◌&&◌, Option, none, some, List, [], ◌∷◌, arith, ◌==◌,
  if-cases, length,
}
use mercury_farm.Base.Text.{String, str_eq}
use mercury_farm.Groups.Types.{Group}
use mercury_farm.Groups.Ledger.{
  Db, get_group, compute_duration_less, add_group_devices, delete_user_group, Call, adds, removes,
  updates, creates, deletes, call_on, step, run,
}
use mercury_farm.Groups.Ledger.Accounts.{get_group-id}
use mercury_farm.Groups.Ledger.Balance.{Balanced}
use mercury_farm.Groups.Ledger.Handlers.{
  is_overlap, is_at_most, add_group_devices-Balanced, remove_group_devices-Balanced,
  update_user_group-Balanced, deleted-Balanced, create_user_group-Balanced,
}

-- an addition that finds no overlap, a removal that does not last longer, an update of the same duration
unfoldable pub is_regular_on : Call → Option Group → Db → Bool
is_regular_on (adds id serials) (some g) db = not (is_overlap (add_group_devices g serials db).0)
is_regular_on (removes id serials) (some g) db =
    is_at_most g.duration (compute_duration_less g (length serials))
is_regular_on (updates id d) (some g) db = g.duration == d.duration
is_regular_on call g db = true

-- a new group lasts 0, and has an id of its own
unfoldable pub is_regular : String → Call → Db → Bool
is_regular root (creates g) db = g.duration == 0 && not (str_eq g.id root)
is_regular root (adds id serials) db = is_regular_on (adds id serials) (get_group id db.groups) db
is_regular root (removes id serials) db =
    is_regular_on (removes id serials) (get_group id db.groups) db
is_regular root (updates id d) db = is_regular_on (updates id d) (get_group id db.groups) db
is_regular root (deletes id) db = is_regular_on (deletes id) (get_group id db.groups) db

call_on-Balanced :
    (root : String) (call : Call) (found : Option Group) (db : Db)
    → Balanced root db
    → ((g : Group) → found ≡ some g → get_group g.id db.groups ≡ some g)
    → is_regular_on call found db ≡ true
    → Balanced root (call_on root call found db)
unfolding call_on is_regular_on delete_user_group
call_on-Balanced root (adds i serials) (some g) db b f r =
    add_group_devices-Balanced root db g b (f g refl) serials r
call_on-Balanced root (removes i serials) (some g) db b f r =
    remove_group_devices-Balanced root db g b (f g refl) serials r
call_on-Balanced root (updates i d) (some g) db b f r =
    update_user_group-Balanced root db g b (f g refl) d r
call_on-Balanced root (deletes i) (some g) db b f r =
    if-cases (λ (d : Db). Balanced root d) (str_eq g.id root) (λ _. b)
      (λ h. deleted-Balanced root db g b (f g refl) (ground arith))
call_on-Balanced root (creates g) (some h) db b f r = b
call_on-Balanced root (adds i serials) none db b f r = b
call_on-Balanced root (removes i serials) none db b f r = b
call_on-Balanced root (updates i d) none db b f r = b
call_on-Balanced root (deletes i) none db b f r = b
call_on-Balanced root (creates g) none db b f r = b

found-again :
    (id : String) (groups : List Group) (g : Group)
    → get_group id groups ≡ some g
    → get_group g.id groups ≡ some g
found-again id groups g e = ap (λ i. get_group i groups) (get_group-id id groups g e) ∙ e

pub step-Balanced :
    (root : String) (call : Call) (db : Db)
    → Balanced root db
    → is_regular root call db ≡ true
    → Balanced root (step root call db)
unfolding step is_regular
step-Balanced root (creates g) db b r =
    create_user_group-Balanced root g db b (ground arith) (ground arith)
step-Balanced root (adds id serials) db b r =
    call_on-Balanced root (adds id serials) (get_group id db.groups) db b (found-again id db.groups)
      r
step-Balanced root (removes id serials) db b r =
    call_on-Balanced root (removes id serials) (get_group id db.groups) db b
      (found-again id db.groups) r
step-Balanced root (updates id d) db b r =
    call_on-Balanced root (updates id d) (get_group id db.groups) db b (found-again id db.groups) r
step-Balanced root (deletes id) db b r =
    call_on-Balanced root (deletes id) (get_group id db.groups) db b (found-again id db.groups) r

-- each call is regular where it is made
unfoldable pub is_regular_run : String → List Call → Db → Bool
is_regular_run root [] db = true
is_regular_run root (call ∷ calls) db =
    is_regular root call db && is_regular_run root calls (step root call db)

-- On a ledger on which what each user has consumed is within its quotas and is what its groups
-- last together and how many they are (the root group aside), it still is after any calls, where
-- no addition ends in overlapping dates, no removal makes a group last longer, each update keeps
-- the duration, and each new group lasts 0 and is not the root group.
pub run-Balanced :
    (root : String) (calls : List Call) (db : Db)
    → Balanced root db
    → is_regular_run root calls db ≡ true
    → Balanced root (run root calls db)
unfolding run is_regular_run
run-Balanced root [] db b r = b
run-Balanced root (call ∷ calls) db b r =
    run-Balanced root calls (step root call db) (step-Balanced root call db b (ground arith))
      (ground arith)
