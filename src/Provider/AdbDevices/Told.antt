-- ===== src/Provider/AdbDevices/Told.antt =====
-- What events tell of the devices of lib/units/provider/ADBObserver.js, over a poll.
use mathlib.Core.Path.{subst}
use mercury_farm.Base.{
  ℕ, ◌≡◌, refl, sym, ap, ◌∙◌, Bool, true, false, Option, none, some, List, [], ◌∷◌, ◌++◌, arith,
  if◌then◌else◌, if-cases, is_some, All, ◌⊎◌, inl, inr,
}
use mercury_farm.Base.Text.{
  String, str_eq, mem_text, eq_iff, field, delete_field, field-delete_field,
}
use mercury_farm.Provider.AdbDevices.{
  Device, Attempts, Event, connects, updates, disconnects, gets_stuck, health_check, error,
  Observer, is_network, put, retyped, entered, enter, enter_all, disconnect, disconnect_all,
}
use mercury_farm.Provider.AdbDevices.Tracking.{type_in, type_of, field-put}

-- what one event tells of a serial's state, over what was known
unfoldable pub tell : String → Event → Option String → Option String
tell serial (connects other d) o = if str_eq other serial then some d.type else o
tell serial (updates other d old) o = if str_eq other serial then some d.type else o
tell serial (disconnects other) o = if str_eq other serial then none else o
tell serial (gets_stuck _ _) o = o
tell serial (health_check _ _) o = o
tell serial error o = o

unfoldable pub told : String → Option String → List Event → Option String
told serial o [] = o
told serial o (e ∷ events) = told serial (tell serial e o) events

abbrev pub known : String → Observer → Option String
known serial s = told serial none s.events

pub told-snoc :
    (serial : String) (o : Option String) (e : Event) (events : List Event)
    → told serial o (events ++ e ∷ []) ≡ tell serial e (told serial o events)
unfolding told
told-snoc serial o e [] = refl
told-snoc serial o e (e' ∷ events) = told-snoc serial (tell serial e' o) e events

-- The events and the map give a serial the same state, or the map has a network device as a device
-- and the events tell of some state of it.
abbrev pub Agrees : String → Option String → Option String → Type 0
Agrees serial known type =
    (known ≡ type) ⊎ ((is_network serial ≡ true) × (type ≡ some "device") × (is_some known ≡ true))

pub Agrees-moved :
    (serial : String) {k k' t t' : Option String}
    → k' ≡ k
    → t' ≡ t
    → Agrees serial k t
    → Agrees serial k' t'
Agrees-moved serial e f (inl same) = inl (e ∙ (same ∙ sym f))
Agrees-moved serial e f (inr (n, d, h)) = inr (n, f ∙ d, ap is_some e ∙ h)

Agrees-if :
    (serial : String) (b : Bool) (o : Option String) {k t : Option String}
    → Agrees serial k t
    → Agrees serial (if b then o else k) (if b then o else t)
Agrees-if serial true o a = inl refl
Agrees-if serial false o a = a

abbrev pub id_in : Option Device → Option ℕ
id_in none = none
id_in (some d) = some d.id

abbrev pub id_of : String → Observer → Option ℕ
id_of serial s = id_in (field s.devices serial)

-- The events agree with the map, a check that waits while failures are counted is for the device
-- that is in the map, and what is reconnected is a network device.
pub record Inv (s : Observer) : Type 0 where
  pub is_known : (serial : String) → Agrees serial (known serial s) (type_of serial s)
  pub is_current :
      (serial : String) (d : Device) (a : Attempts)
      → s.asked ≡ some (serial, d)
      → field s.health_attempts serial ≡ some a
      → id_of serial s ≡ some d.id
  pub of_network : All (λ p. is_network p.0 ≡ true) s.reconnecting

agree : (o : Option ℕ) (i i' : ℕ) → o ≡ some i' → (o ≡ some i ⊎ o ≡ none) → some i ≡ some i'
agree o i i' e (inl e') = sym e' ∙ e
agree o i i' e (inr e') = cc

pub id-put :
    (serial other : String) (d : Device) (s : Observer) (i : ℕ)
    → id_of other s ≡ some i
    → (id_of serial s ≡ some d.id ⊎ id_of serial s ≡ none)
    → id_in (field (put serial d s.devices) other) ≡ some i
id-put serial other d s i e held =
    ap id_in (field-put serial other d s.devices)
    ∙ if-cases (λ o. id_in o ≡ some i) (str_eq serial other)
        (λ here.
          agree (id_of serial s) d.id i
            (subst (λ x. id_of x s ≡ some i) (sym ((eq_iff serial other).0 here)) e) held)
        (λ _. e)

passes :
    (b : Bool) (counts : Option Attempts) (device : Option Device) (a : Attempts) (i : ℕ)
    → (if b then none else counts) ≡ some a
    → (counts ≡ some a → id_in device ≡ some i)
    → id_in (if b then none else device) ≡ some i
passes true counts device a i e current = cc
passes false counts device a i e current = current e

-- what is deleted from both maps
kept :
    (serial other : String) (devices : List (String × Device)) (attempts : List (String × Attempts))
    (a : Attempts) (i : ℕ)
    → field (delete_field attempts serial) other ≡ some a
    → (field attempts other ≡ some a → id_in (field devices other) ≡ some i)
    → id_in (field (delete_field devices serial) other) ≡ some i
kept serial other devices attempts a i counted current =
    ap id_in (field-delete_field devices serial other)
    ∙ passes (str_eq serial other) (field attempts other) (field devices other) a i
        (sym (field-delete_field attempts serial other) ∙ counted) current

pub same_type :
    (serial other : String) (d : Device) (s : Observer)
    → type_of serial s ≡ some d.type
    → type_in
        (if str_eq serial other then some (record d { is_stuck = true }) else field s.devices other)
      ≡ type_of other s
same_type serial other d s e =
    if-cases (λ o. type_in o ≡ type_of other s) (str_eq serial other)
      (λ here. subst (λ x. some d.type ≡ type_of x s) ((eq_iff serial other).0 here) (sym e))
      (λ _. refl)

entered-Inv :
    (serial state : String) (o : Option Device) (s : Observer)
    → field s.devices serial ≡ o
    → Inv s
    → Inv (entered serial state o s)
unfolding entered tell
entered-Inv serial state none s e i =
    let d : Device = record { id = s.created; type = state; is_stuck = false } in
    record {
      is_known = λ other.
          Agrees-moved other (told-snoc other none (connects serial d) s.events)
            (ap type_in (field-put serial other d s.devices) ∙ ground arith)
            (Agrees-if other (str_eq serial other) (some state) (i.is_known other));
      is_current = λ other d' a waits counted.
          id-put serial other d s d'.id (i.is_current other d' a waits counted) (inr (ap id_in e));
      of_network = i.of_network;
    }
entered-Inv serial state (some d) s e i =
    if-cases Inv (str_eq d.type state) (λ same. i)
      (λ differs. record {
        is_known = λ other.
            Agrees-moved other
              (told-snoc other none (updates serial (retyped state d) d.type) s.events)
              (ap type_in (field-put serial other (retyped state d) s.devices) ∙ ground arith)
              (Agrees-if other (str_eq serial other) (some state) (i.is_known other));
        is_current = λ other d' a waits counted.
            id-put serial other (retyped state d) s d'.id (i.is_current other d' a waits counted)
              (inl (ap id_in e));
        of_network = i.of_network;
      })

pub enter_all-Inv :
    (entries : List (String × String)) (s : Observer) → Inv s → Inv (enter_all entries s)
unfolding enter_all enter
enter_all-Inv [] s i = i
enter_all-Inv (entry ∷ entries) s i =
    enter_all-Inv entries _ (entered-Inv entry.0 entry.1 _ s refl i)

disconnect-Inv :
    (current : List String) (serial : String) (s : Observer)
    → Inv s
    → Inv (disconnect current serial s)
unfolding disconnect tell
disconnect-Inv current serial s i =
    if-cases Inv (mem_text serial current) (λ _. i)
      (λ _. record {
        is_known = λ other.
            Agrees-moved other (told-snoc other none (disconnects serial) s.events)
              (ap type_in (field-delete_field s.devices serial other) ∙ ground arith)
              (Agrees-if other (str_eq serial other) none (i.is_known other));
        is_current = λ other d a waits counted.
            kept serial other s.devices s.health_attempts a d.id counted
              (λ c. i.is_current other d a waits c);
        of_network = i.of_network;
      })

pub disconnect_all-Inv :
    (current serials : List String) (s : Observer) → Inv s → Inv (disconnect_all current serials s)
unfolding disconnect_all
disconnect_all-Inv current [] s i = i
disconnect_all-Inv current (serial ∷ serials) s i =
    disconnect_all-Inv current serials _ (disconnect-Inv current serial s i)
