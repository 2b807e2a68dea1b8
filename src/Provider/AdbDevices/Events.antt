-- ===== src/Provider/AdbDevices/Events.antt =====
-- What a listener of the observer's events comes to know of its devices.
use mathlib.Core.Path.{subst}
use mathlib.Core.Option.{some-injective}
use mercury_farm.Base.{
  ℕ, ◌≡◌, refl, ap, ◌∙◌, Bool, true, false, not, ◌&&◌, ◌||◌, All, ◌⊎◌, inl, Option, none, some,
  List, [], ◌∷◌, arith, if-cases, is_some, ◌==◌,
}
use mercury_farm.Base.Text.{String, field}
use mercury_farm.Provider.AdbDevices.{
  Device, Attempts, health_check, error, Observer, keys, poll_answered, poll_starts, failed,
  health_check_failure, ask_of, ask, now_of, answer_to, answer, is_skipped, new, Action, polls,
  poll_answers, asks, answers, checks_end, reconnect_answers, step, run, is_network,
}
use mercury_farm.Provider.AdbDevices.Tracking.{type_in, type_of, field-put}
use mercury_farm.Provider.AdbDevices.Told.{
  tell, told, known, told-snoc, id_in, id_of, Inv, Agrees-moved, same_type, enter_all-Inv,
  disconnect_all-Inv,
}
use mercury_farm.Provider.AdbDevices.Reconnects.{reconnect_answered-Inv}

-- of a device that is in the map as it is, or that no failure is counted for
failed-Inv :
    (now : ℕ) (serial : String) (d : Device) (o : Option Attempts) (s : Observer)
    → s.asked ≡ none
    → (is_some o ≡ true → type_of serial s ≡ some d.type)
    → Inv s
    → Inv (failed now serial d o s)
unfolding failed tell
failed-Inv now serial d none s quiet held i = record {
  is_known = i.is_known;
  is_current = λ other d' a waits counted. cc;
  of_network = i.of_network;
}
failed-Inv now serial d (some a) s quiet held i =
    if-cases Inv _
      (λ stuck. record {
        is_known = λ other.
            Agrees-moved other (told-snoc other none _ s.events)
              (ap type_in (field-put serial other (record d { is_stuck = true }) s.devices)
                ∙ same_type serial other d s (held refl))
              (i.is_known other);
        is_current = λ other d' a waits counted. cc;
        of_network =
            if-cases (All (λ p. is_network p.0 ≡ true)) (is_network serial && not s.is_destroyed)
              (λ h. (ground arith, i.of_network)) (λ _. i.of_network);
      })
      (λ counted. record {
        is_known = i.is_known;
        is_current = λ other d' a waits counted. cc;
        of_network = i.of_network;
      })

ask-Inv :
    (serial : String) (o : Option Device) (s : Observer)
    → field s.devices serial ≡ o
    → Inv s
    → Inv (ask_of serial o s)
unfolding ask_of
ask-Inv serial none s e i = i
ask-Inv serial (some d) s e i =
    if-cases Inv (is_skipped d) (λ _. i)
      (λ _. record {
        is_known = i.is_known;
        is_current = λ other d' a waits counted.
            subst (λ p. id_of p.0 s ≡ some p.1.id) (some-injective _ _ waits) (ap id_in e);
        of_network = i.of_network;
      })

now_type :
    (d : Device) (o : Option Device) (c : Option Attempts)
    → ((a : Attempts) → c ≡ some a → id_in o ≡ some d.id)
    → is_some c ≡ true
    → type_in o ≡ some (now_of d o).type
unfolding now_of
now_type d o none current counts = cc
now_type d none (some a) current counts = let e : none ≡ some d.id = current a refl in cc
now_type d (some d') (some a) current counts =
    let same : d'.id ≡ d.id = some-injective _ _ (current a refl) in
    if-cases (λ (r : Device). some d'.type ≡ some r.type) (d'.id == d.id) (λ _. refl)
      (λ differs. ground arith)

answer-Inv :
    (now : ℕ) (answered : Bool) (o : Option (String × Device)) (s : Observer)
    → s.asked ≡ o
    → Inv s
    → Inv (answer_to now answered o s)
unfolding answer_to health_check_failure
answer-Inv now answered none s e i = i
answer-Inv now true (some (serial, d)) s e i = record {
  is_known = i.is_known;
  is_current = λ other d' a waits counted. cc;
  of_network = i.of_network;
}
answer-Inv now false (some (serial, d)) s e i =
    failed-Inv now serial (now_of d (field s.devices serial)) (field s.health_attempts serial)
      (record s { asked = none }) refl
      (now_type d _ _ (λ a counted. i.is_current serial d a e counted))
      (record {
        is_known = i.is_known;
        is_current = λ other d' a waits counted. cc;
        of_network = i.of_network;
      })

step-Inv : (action : Action) (s : Observer) → Inv s → Inv (step action s)
unfolding step poll_starts poll_answered ask answer tell
step-Inv polls s i =
    if-cases Inv (s.is_polling || s.is_destroyed) (λ _. i)
      (λ _. record { is_known = i.is_known; is_current = i.is_current; of_network = i.of_network })
step-Inv (poll_answers none) s i = record {
  is_known =
      λ other. Agrees-moved other (told-snoc other none error s.events) refl (i.is_known other);
  is_current = i.is_current;
  of_network = i.of_network;
}
step-Inv (poll_answers (some entries)) s i =
    let after = disconnect_all-Inv (keys entries) (keys s.devices) _ (enter_all-Inv entries s i) in
    record {
      is_known = after.is_known;
      is_current = after.is_current;
      of_network = after.of_network;
    }
step-Inv (asks serial) s i =
    if-cases Inv (s.is_destroyed || not s.continues) (λ _. i) (λ _. ask-Inv serial _ s refl i)
step-Inv (answers now answered) s i = answer-Inv now answered s.asked s refl i
step-Inv (checks_end ok bad) s i = record {
  is_known = λ other.
      Agrees-moved other (told-snoc other none (health_check ok bad) s.events) refl
        (i.is_known other);
  is_current = i.is_current;
  of_network = i.of_network;
}
step-Inv (reconnect_answers serial id entries) s i = reconnect_answered-Inv serial id entries s i

run-Inv : (actions : List Action) (s : Observer) → Inv s → Inv (run actions s)
unfolding run
run-Inv [] s i = i
run-Inv (action ∷ actions) s i = run-Inv actions _ (step-Inv action s i)

-- After any polls, health checks and reconnections, between which a device may go and come back:
-- for each serial, the events so far, followed from the start, tell exactly the state that the map
-- has for it, or else the serial is that of a network device, the map has it as a device, and the
-- events tell some state of it.
pub run-known :
    (actions : List Action) (serial : String)
    → (known serial (run actions new) ≡ type_of serial (run actions new))
      ⊎ ((is_network serial ≡ true)
          × (type_of serial (run actions new) ≡ some "device")
          × (is_some (known serial (run actions new)) ≡ true))
unfolding new told field
run-known actions =
    (run-Inv actions new (record {
      is_known = λ _. inl refl;
      is_current = λ _ _ _ waits _. cc;
      of_network = tt;
    })).is_known
