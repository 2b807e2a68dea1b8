-- ===== src/Provider/AdbDevices/Reconnection.antt =====
-- A reconnection of lib/units/provider/ADBObserver.js and the poll that comes after it.
use mercury_farm.Base.{
  ◌≡◌, refl, ap, ◌∙◌, true, false, Option, none, some, List, [], ◌∷◌, arith, if-cases, ◌==◌,
}
use mercury_farm.Base.Text.{String, mem_text, eq_iff, eq_refl, field}
use mercury_farm.Provider.AdbDevices.{
  Device, disconnects, Observer, put, entered, enter, enter_all, keys, disconnect, disconnect_all,
  poll_answered, reconnected, reconnected_at,
}
use mercury_farm.Provider.AdbDevices.Tracking.{type_of, field-put, poll-type_of}
use mercury_farm.Provider.AdbDevices.Told.{tell, told-snoc, known}

disconnect-known :
    (current : List String) (serial other : String) (s : Observer)
    → mem_text other current ≡ true
    → known other (disconnect current serial s) ≡ known other s
unfolding disconnect tell
disconnect-known current serial other s held =
    if-cases (λ r. known other r ≡ known other s) (mem_text serial current) (λ _. refl)
      (λ gone.
        told-snoc other none (disconnects serial) s.events ∙ ground (arith, eq_iff serial other))

disconnect_all-known :
    (current serials : List String) (other : String) (s : Observer)
    → mem_text other current ≡ true
    → known other (disconnect_all current serials s) ≡ known other s
unfolding disconnect_all
disconnect_all-known current [] other s held = refl
disconnect_all-known current (serial ∷ serials) other s held =
    disconnect_all-known current serials other _ held ∙ disconnect-known current serial other s held

entered-same :
    (serial : String) (d : Device) (o : Option Device) (s : Observer)
    → o ≡ some d
    → entered serial d.type o s ≡ s
unfolding entered
entered-same serial d o s e = ap (λ o. entered serial d.type o s) e ∙ (rw (eq_refl d.type) refl)

abbrev online : Device → Device
online d = record d { type = "device"; is_stuck = false }

reconnected-eq :
    (serial : String) (d : Device) (o : Option Device) (s : Observer)
    → o ≡ some d
    → reconnected_at serial d.id o s ≡ record s { devices = put serial (online d) s.devices }
unfolding reconnected_at
reconnected-eq serial d o s e =
    ap (λ o. reconnected_at serial d.id o s) e
    ∙ if-cases (λ r. r ≡ record s { devices = put serial (online d) s.devices }) (d.id == d.id)
        (λ _. refl) (λ other. ground arith)

poll-silent :
    (serial : String) (d : Device) (s : Observer)
    → field s.devices serial ≡ some d
    → known serial (poll_answered (some ((serial, d.type) ∷ [])) s) ≡ known serial s
unfolding poll_answered enter_all enter keys
poll-silent serial d s e =
    disconnect_all-known (serial ∷ []) (keys s.devices) serial (enter (serial, d.type) s)
      (rw (eq_refl serial) refl)
    ∙ ap (known serial) (entered-same serial d (field s.devices serial) s e)

-- After a reconnection of a device that is in the map, and a poll that lists just it as a device:
-- the map has that state, and the events tell of it just what they told before.
pub reconnected-is_silent :
    (serial : String) (d : Device) (s : Observer)
    → field s.devices serial ≡ some d
    → type_of serial (poll_answered (some ((serial, "device") ∷ [])) (reconnected serial d.id s))
        ≡ some "device"
      × known serial (poll_answered (some ((serial, "device") ∷ [])) (reconnected serial d.id s))
        ≡ known serial s
unfolding reconnected
reconnected-is_silent serial d s e = (
  poll-type_of ((serial, "device") ∷ []) _ serial ∙ (rw (eq_refl serial) refl),
  ap (λ r. known serial (poll_answered (some ((serial, "device") ∷ [])) r))
        (reconnected-eq serial d _ s e)
      ∙ poll-silent serial (online d) (record s { devices = put serial (online d) s.devices })
          (field-put serial serial (online d) s.devices ∙ (rw (eq_refl serial) refl)),
)
