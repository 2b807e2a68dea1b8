-- ===== src/Provider/AdbDevices/Tracking.antt =====
-- The map of devices against what ADB says, and against what the events say.
use mathlib.Core.Path.{subst}
use mercury_farm.Base.{
  ◌≡◌, refl, ap, ◌∙◌, true, false, not, ◌&&◌, Option, none, some, List, [], ◌∷◌, arith,
  if◌then◌else◌, if-cases,
}
use mercury_farm.Base.Text.{String, str_eq, mem_text, eq_iff, field, field-delete_field}
use mercury_farm.Provider.AdbDevices.{
  Device, Observer, put, retyped, entered, enter, enter_all, keys, disconnect, disconnect_all,
  poll_answered,
}

-- the last state that a list gives to a serial
abbrev pub listed : String → Option String → List (String × String) → Option String
listed serial o [] = o
listed serial o (entry ∷ entries) =
    listed serial (if str_eq entry.0 serial then some entry.1 else o) entries

abbrev pub type_in : Option Device → Option String
type_in none = none
type_in (some d) = some d.type

pub field-put {ℓ} :
    {V : Type ℓ} (key other : String) (v : V) (pairs : List (String × V))
    → field (put key v pairs) other ≡ (if str_eq key other then some v else field pairs other)
unfolding field put
field-put key other v [] = refl
field-put key other v (pair ∷ pairs) =
    ground
      (arith, field-put key other v pairs, eq_iff pair.0 key, eq_iff pair.0 other, eq_iff key other)

abbrev pub type_of : String → Observer → Option String
type_of serial s = type_in (field s.devices serial)

pub entered-type_of :
    (serial other state : String) (o : Option Device) (s : Observer)
    → field s.devices serial ≡ o
    → type_of other (entered serial state o s)
      ≡ (if str_eq serial other then some state else type_of other s)
unfolding entered
entered-type_of serial other state none s e =
    ap type_in
      (field-put serial other (record { id = s.created; type = state; is_stuck = false }) s.devices)
    ∙ ground arith
entered-type_of serial other state (some d) s e =
    if-cases (λ r. type_of other r ≡ (if str_eq serial other then some state else type_of other s))
      (str_eq d.type state)
      (λ same.
        if-cases (λ r. type_of other s ≡ r) (str_eq serial other)
          (λ here.
            subst (λ x. type_of x s ≡ some state) ((eq_iff serial other).0 here)
              (ap type_in e ∙ ap some ((eq_iff d.type state).0 same)))
          (λ _. refl))
      (λ _. ap type_in (field-put serial other (retyped state d) s.devices) ∙ ground arith)

enter_all-type_of :
    (serial : String) (entries : List (String × String)) (s : Observer)
    → type_of serial (enter_all entries s) ≡ listed serial (type_of serial s) entries
unfolding enter_all enter
enter_all-type_of serial [] s = refl
enter_all-type_of serial (entry ∷ entries) s =
    enter_all-type_of serial entries _
    ∙ ap (λ o. listed serial o entries)
        (entered-type_of entry.0 serial entry.1 (field s.devices entry.0) s refl)

listed-absent :
    (serial : String) (o : Option String) (entries : List (String × String))
    → mem_text serial (keys entries) ≡ false
    → listed serial o entries ≡ o
unfolding keys
listed-absent serial o [] h = refl
listed-absent serial o (entry ∷ entries) h = ground (arith, listed-absent serial o entries)

listed-present :
    (serial : String) (o o' : Option String) (entries : List (String × String))
    → mem_text serial (keys entries) ≡ true
    → listed serial o entries ≡ listed serial o' entries
unfolding keys
listed-present serial o o' [] h = cc
listed-present serial o o' (entry ∷ entries) h = ground (arith, listed-present serial o o' entries)

field-absent {ℓ} :
    {V : Type ℓ} (key : String) (pairs : List (String × V))
    → mem_text key (keys pairs) ≡ false
    → field pairs key ≡ none
unfolding field keys
field-absent key [] h = refl
field-absent key (pair ∷ pairs) h = ground (arith, field-absent key pairs)

pub disconnect-type_of :
    (current : List String) (serial other : String) (s : Observer)
    → type_of other (disconnect current serial s)
      ≡ (if str_eq serial other && not (mem_text other current) then none else type_of other s)
unfolding disconnect
disconnect-type_of current serial other s =
    ground (arith, field-delete_field s.devices serial other, eq_iff serial other)

disconnect_all-type_of :
    (current serials : List String) (other : String) (s : Observer)
    → type_of other (disconnect_all current serials s)
      ≡ (if mem_text other serials && not (mem_text other current) then none else type_of other s)
unfolding disconnect_all
disconnect_all-type_of current [] other s = refl
disconnect_all-type_of current (serial ∷ serials) other s =
    disconnect_all-type_of current serials other (disconnect current serial s)
    ∙ ground (arith, disconnect-type_of current serial other s)

-- what a poll leaves of a serial, given the state that it had
settles :
    (serial : String) (before : List String) (o : Option String) (entries : List (String × String))
    → (mem_text serial before ≡ false → o ≡ none)
    → (if mem_text serial before && not (mem_text serial (keys entries))
        then none
        else listed serial o entries)
      ≡ listed serial none entries
settles serial before o entries absent =
    if-cases (λ r. r ≡ listed serial none entries)
      (mem_text serial before && not (mem_text serial (keys entries)))
      (λ gone. ground (arith, listed-absent serial none entries))
      (λ kept. ground (arith, listed-present serial o none entries, absent))

-- After a poll the map gives each serial the state that stands last for it in the answer of ADB,
-- and no other serial a state.
pub poll-type_of :
    (entries : List (String × String)) (s : Observer) (serial : String)
    → type_of serial (poll_answered (some entries) s) ≡ listed serial none entries
unfolding poll_answered
poll-type_of entries s serial =
    disconnect_all-type_of (keys entries) (keys s.devices) serial (enter_all entries s)
    ∙ ap
        (λ o.
          if mem_text serial (keys s.devices) && not (mem_text serial (keys entries))
          then none
          else o)
        (enter_all-type_of serial entries s)
    ∙ settles serial (keys s.devices) (type_of serial s) entries
        (λ h. ap type_in (field-absent serial s.devices h))
