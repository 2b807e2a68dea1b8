-- ===== src/Provider/AdbDevices/Reconnects.antt =====
-- What a reconnection changes of the devices, of which no event tells.
use mathlib.Core.Path.{subst}
use mercury_farm.Base.{
  ℕ, ◌≡◌, refl, sym, ap, ◌∙◌, true, false, ◌&&◌, All, inl, inr, Option, none, some, List, [], ◌∷◌,
  arith, if-cases, is_some, ◌==◌, Bool-cases,
}
use mercury_farm.Base.Text.{String, str_eq, eq_iff, field}
use mercury_farm.Provider.AdbDevices.{
  Device, Observer, put, is_network, is_reconnecting, settle, lists_online, reconnected_at,
  reconnected, reconnect_answered,
}
use mercury_farm.Provider.AdbDevices.Tracking.{type_in, type_of, field-put}
use mercury_farm.Provider.AdbDevices.Told.{known, id_in, Inv, Agrees, id-put}

-- a serial that is reconnected
reconnecting-is_network :
    (serial : String) (id : ℕ) (pairs : List (String × ℕ))
    → All (λ p. is_network p.0 ≡ true) pairs
    → is_reconnecting serial id pairs ≡ true
    → is_network serial ≡ true
unfolding is_reconnecting
reconnecting-is_network serial id [] a h = cc
reconnecting-is_network serial id (p ∷ pairs) a h = elim (Bool-cases (str_eq p.0 serial)) [
  | inl e ↦ ap is_network (sym ((eq_iff p.0 serial).0 e)) ∙ a.0
  | inr n ↦ reconnecting-is_network serial id pairs a.1 (ground (arith, h, n))
]

settle-All :
    (serial : String) (id : ℕ) (pairs : List (String × ℕ))
    → All (λ p. is_network p.0 ≡ true) pairs
    → All (λ p. is_network p.0 ≡ true) (settle serial id pairs)
unfolding settle
settle-All serial id [] a = tt
settle-All serial id (p ∷ pairs) a =
    if-cases (All (λ p. is_network p.0 ≡ true)) (str_eq p.0 serial && p.1 == id) (λ _. a.1)
      (λ _. (a.0, settle-All serial id pairs a.1))

-- the events have told some state of what is in the map
is_told :
    (serial : String) (d : Device) (k t : Option String)
    → t ≡ some d.type
    → Agrees serial k t
    → is_some k ≡ true
is_told serial d k t e (inl same) = ap is_some (same ∙ e)
is_told serial d k t e (inr a) = a.2

retyped-Agrees :
    (serial other : String) (d : Device) (s : Observer)
    → field s.devices serial ≡ some d
    → is_network serial ≡ true
    → Agrees serial (known serial s) (type_of serial s)
    → Agrees other (known other s) (type_of other s)
    → Agrees other (known other s) (
        type_in
          (field (put serial (record d { type = "device"; is_stuck = false }) s.devices) other))
retyped-Agrees serial other d s e n a b =
    subst (Agrees other (known other s))
      (sym (
        ap type_in
          (field-put serial other (record d { type = "device"; is_stuck = false }) s.devices)))
      (if-cases (λ (o : Option Device). Agrees other (known other s) (type_in o))
        (str_eq serial other)
        (λ here.
          let same = (eq_iff serial other).0 here in
          inr (
            ap is_network (sym same) ∙ n,
            refl,
            ap (λ k. is_some (known k s)) (sym same) ∙ is_told serial d _ _ (ap type_in e) a,
          ))
        (λ _. b))

reconnected_at-Inv :
    (serial : String) (id : ℕ) (o : Option Device) (s : Observer)
    → field s.devices serial ≡ o
    → is_network serial ≡ true
    → Inv s
    → Inv (reconnected_at serial id o s)
unfolding reconnected_at
reconnected_at-Inv serial id none s e n i = i
reconnected_at-Inv serial id (some d) s e n i =
    if-cases Inv (d.id == id)
      (λ _. record {
        is_known =
            λ other. retyped-Agrees serial other d s e n (i.is_known serial) (i.is_known other);
        is_current = λ other d' a waits counted.
            id-put serial other (record d { type = "device"; is_stuck = false }) s d'.id
              (i.is_current other d' a waits counted) (inl (ap id_in e));
        of_network = i.of_network;
      })
      (λ _. i)

pub reconnect_answered-Inv :
    (serial : String) (id : ℕ) (entries : Option (List (String × String))) (s : Observer)
    → Inv s
    → Inv (reconnect_answered serial id entries s)
unfolding reconnect_answered reconnected
reconnect_answered-Inv serial id entries s i =
    if-cases Inv (is_reconnecting serial id s.reconnecting)
      (λ h.
        let after : Inv (record s { reconnecting = settle serial id s.reconnecting }) = record {
          is_known = i.is_known;
          is_current = i.is_current;
          of_network = settle-All serial id s.reconnecting i.of_network;
        } in
        if-cases Inv (lists_online serial entries)
          (λ _.
            reconnected_at-Inv serial id _ _ refl
              (reconnecting-is_network serial id s.reconnecting i.of_network h) after)
          (λ _. after))
      (λ _. i)
