-- ===== src/Wire/ChannelManager/Expiry.antt =====
-- When a channel ends.
use mathlib.Core.Path.{subst}
use mercury_farm.Base.{
  ℕ, zero, suc, ◌+◌, ◌-◌, ◌≤◌, ◌<◌, ◌≡◌, ◌⊎◌, inl, inr, refl, sym, ap, ◌∙◌, Option, none, some,
  List, [], ◌∷◌, ◌++◌, arith, get_elem?, set, ltb, leb, if-cases, min,
}
use mercury_farm.Base.Text.{String, str_eq, eq_refl, field, delete_field, field-delete_field}
use mercury_farm.Wire.ChannelManager.{
  Channel, ChannelManager, object, find, change, change_at, put_at, without, unregistered,
  unregister, checked, check, max_32_int, keepalive,
}

-- a name of a channel
pub record IsOpen (m : ChannelManager) (id : String) (k : ℕ) (c : Channel) : Type 0 where
  pub named : field m.channels id ≡ some k
  pub stored : get_elem? m.store k ≡ some c

find-IsOpen :
    (m : ChannelManager) (id : String) (k : ℕ) (c : Channel) → IsOpen m id k c → find id m ≡ some c
unfolding find
find-IsOpen m id k c o = ap (object m) o.named ∙ o.stored

change-IsOpen :
    (f : Channel → Channel) (m : ChannelManager) (id : String) (k : ℕ) (c : Channel)
    → IsOpen m id k c
    → change id f m ≡ record m { store = set m.store k (f c) }
unfolding change
change-IsOpen f m id k c o = ap (change_at f m) o.named ∙ ap (put_at f m k) o.stored

pub get-set :
    (cs : List Channel) (k : ℕ) (c d : Channel)
    → get_elem? cs k ≡ some c
    → get_elem? (set cs k d) k ≡ some d
get-set [] k c d e = absurd (ground arith)
get-set (x ∷ cs) zero c d e = refl
get-set (x ∷ cs) (suc k) c d e = get-set cs k c d e

delete-gone :
    (channels : List (String × ℕ)) (id : String) → field (delete_field channels id) id ≡ none
delete-gone channels id = field-delete_field channels id id ∙ rw (eq_refl id) refl

without-gone :
    (alias : Option String) (channels : List (String × ℕ)) (id : String)
    → field channels id ≡ none
    → field (without alias channels) id ≡ none
without-gone none channels id e = e
without-gone (some alias) channels id e =
    field-delete_field channels alias id
    ∙ if-cases (λ o. o ≡ none) (str_eq alias id) (λ _. refl) (λ _. e)

-- A channel that has ended: the event is out, and the id is free.
pub record Ended (before : ChannelManager) (id : String) (after : ChannelManager) : Type 0 where
  pub emitted : after.timeouts ≡ before.timeouts ++ id ∷ []
  pub gone : field after.channels id ≡ none

-- A channel that goes on, with a check set for a later time that is not after its end.
pub record Rearmed (now : ℕ) (before : ChannelManager) (id : String) (k : ℕ) (c : Channel)
    (after : ChannelManager) : Type 0 where
  pub silent : after.timeouts ≡ before.timeouts
  pub delay : ℕ
  pub still_open : IsOpen after id k (record c { timer = some delay })
  pub later : 0 < delay
  pub in_time : now + delay ≤ c.last_activity + c.timeout

checked-ends :
    (now : ℕ) (m : ChannelManager) (id : String) (k : ℕ) (c : Channel)
    → IsOpen m id k c
    → Ended m id (record (unregister id m) { timeouts = m.timeouts ++ id ∷ [] })
unfolding unregister unregistered
checked-ends now m id k c o =
    subst (λ x. Ended m id (record (unregistered id m x) { timeouts = m.timeouts ++ id ∷ [] }))
      (sym (find-IsOpen m id k c o))
      (record {
        emitted = refl;
        gone = without-gone c.alias (delete_field m.channels id) id (delete-gone m.channels id);
      })

checked-rearms :
    (now : ℕ) (m : ChannelManager) (id : String) (k : ℕ) (c : Channel)
    → IsOpen m id k c
    → c.last_activity ≤ now
    → now - c.last_activity < c.timeout
    → Rearmed now m id k c (
        change id
          (λ x. record x { timer = some (min (c.timeout - (now - c.last_activity)) max_32_int) })
          m)
checked-rearms now m id k c o h lt =
    let d : ℕ = min (c.timeout - (now - c.last_activity)) max_32_int in
    subst (Rearmed now m id k c)
      (sym (change-IsOpen (λ (x : Channel). record x { timer = some d }) m id k c o))
      (record {
        silent = refl;
        delay = d;
        still_open = record {
          named = o.named;
          stored = get-set m.store k c (record c { timer = some d }) o.stored;
        };
        later = omega arith;
        in_time = omega arith;
      })

-- A check, not before its last use, of an open channel with a timeout above 1: if it has not been
-- used for that long, it ends; else a check is set, at the latest for the moment when it would
-- end.
pub check_ends_or_rearms :
    (now : ℕ) (m : ChannelManager) (id : String) (k : ℕ) (c : Channel)
    → IsOpen m id k c
    → c.last_activity ≤ now
    → 1 < c.timeout
    → ((c.last_activity + c.timeout ≤ now) × Ended m id (check now id m))
      ⊎ ((now < c.last_activity + c.timeout) × Rearmed now m id k c (check now id m))
unfolding check checked
check_ends_or_rearms now m id k c o h above =
    let Outcome : ChannelManager → Type 0 = λ after.
      ((c.last_activity + c.timeout ≤ now) × Ended m id after)
      ⊎ ((now < c.last_activity + c.timeout) × Rearmed now m id k c after) in
    subst (λ x. Outcome (checked now id m x)) (sym (find-IsOpen m id k c o))
      (if-cases Outcome (leb c.timeout (now - c.last_activity))
        (λ old. inl (ground arith, checked-ends now m id k c o))
        (λ young.
          if-cases Outcome (ltb 1 c.timeout)
            (λ _. inr (ground arith, checked-rearms now m id k c o h (ground arith)))
            (λ low. absurd (ground arith))))

-- A channel with a timeout above 1 that is kept alive under one of two names: a check under the
-- other name, before the timeout is over again, sets a further check and leaves it open.
pub kept_by_alias :
    (now later : ℕ) (m : ChannelManager) (id alias : String) (k : ℕ) (c : Channel)
    → IsOpen m id k c
    → IsOpen m alias k c
    → 1 < c.timeout
    → now ≤ later
    → later < now + c.timeout
    → Rearmed later
        (keepalive now alias m)
        id
        k
        (record c { last_activity = now })
        (check later id (keepalive now alias m))
unfolding keepalive
kept_by_alias now later m id alias k c o a above h soon =
    let d : Channel = record c { last_activity = now } in
    let kept : IsOpen (keepalive now alias m) id k d =
      subst (λ n. IsOpen n id k d)
        (sym (change-IsOpen (λ (x : Channel). record x { last_activity = now }) m alias k c a))
        (record { named = o.named; stored = get-set m.store k c d a.stored }) in
    elim (check_ends_or_rearms later (keepalive now alias m) id k d kept h above) [
      | inl (late, _) ↦ absurd (omega arith)
      | inr (_, rearmed) ↦ rearmed
    ]
