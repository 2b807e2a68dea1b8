-- ===== src/Device/Touch/Writes.antt =====
-- What is written to the service.
use mathlib.Core.List.{append_assoc, append-nil}
use mathlib.Core.Path.{subst}
use mercury_farm.Base.{
  ◌≡◌, refl, sym, Bool, true, false, not, ◌&&◌, List, [], ◌∷◌, ◌++◌, arith, ◌==◌, if◌then◌else◌,
  if-cases,
}
use mercury_farm.Device.Touch.{
  desire, restart, restarted, inc, recovered, released, Step, starts, stops, configures, touches,
  stream_ends, immediate, recovers, restart_stops, destroys, service_starts, connects,
  banner_arrives, start_breaks, failing_ends, stopping_ends, is_at, is_starting, step, run,
}
use mercury_farm.Device.Touch.State.{
  Writer, service, connecting, reading_banner, ending, failing, Consumer, new, queue_write,
}
use mercury_farm.Device.Touch.Flush.{start_with-Written, queue_at-Written}
use mercury_farm.Device.Touch.Unwritten.{
  Written, Keeps, Keeps-Written, Keeps-self, stopped-Keeps, ensure_state-Keeps, restart_at-Keeps,
  inc-Keeps, failed_start-Keeps,
}

abbrev pub touch_of : Step → List Writer
touch_of (touches w) = w ∷ []
touch_of _ = []

abbrev pub touched_by : List Step → List Writer
touched_by [] = []
touched_by (t ∷ steps) = touch_of t ++ touched_by steps

abbrev pub is_destroys : Step → Bool
is_destroys destroys = true
is_destroys _ = false

abbrev pub never_destroys : List Step → Bool
never_destroys [] = true
never_destroys (t ∷ steps) = not (is_destroys t) && never_destroys steps

module _ (touched : List Writer) (s : Consumer) (i : Written touched s) where
  untouched : (t : Consumer) → Written touched t → Written (touched ++ []) t
  untouched t w = subst (λ (l : List Writer). Written l t) (sym (append-nil touched)) w

  kept-Written : (t : Consumer) → Keeps s t → Written (touched ++ []) t
  kept-Written t k = untouched t (Keeps-Written touched s t k i)

  kept_or :
      (test : Bool) (t : Consumer) → Keeps s t → Written (touched ++ []) (if test then s else t)
  kept_or true t k = untouched s i
  kept_or false t k = kept-Written t k

  going : (test : Bool) (t : Consumer) → Keeps s t → Written (touched ++ []) (if test then t else s)
  going true t k = kept-Written t k
  going false t k = untouched s i

  step-Written : (t : Step) → is_destroys t ≡ false → Written (touched ++ touch_of t) (step t s)
  unfolding step desire restart restarted recovered released queue_write
  step-Written starts d =
      kept-Written _
        (ensure_state-Keeps s _ (record { of_written = refl; of_queue = refl; of_ready = λ r. r }))
  step-Written stops d =
      kept-Written _
        (ensure_state-Keeps s _ (record { of_written = refl; of_queue = refl; of_ready = λ r. r }))
  step-Written configures d = kept-Written _ (restart_at-Keeps s.running s s (Keeps-self s))
  step-Written (touches w) d = queue_at-Written s.running touched w s refl i
  step-Written (stream_ends now) d =
      kept-Written _
        (restart_at-Keeps (inc now s).running s (inc now s) (inc-Keeps now s s (Keeps-self s)))
  step-Written immediate d =
      kept_or (s.immediates == 0) _
        (ensure_state-Keeps s _ (record { of_written = refl; of_queue = refl; of_ready = λ r. r }))
  step-Written recovers d =
      kept_or (s.timers == 0) _
        (ensure_state-Keeps s _ (record { of_written = refl; of_queue = refl; of_ready = λ r. r }))
  step-Written restart_stops d =
      kept_or (s.restarts == 0) _ (ensure_state-Keeps s _ (stopped-Keeps s _ refl refl refl))
  step-Written Step.limit_stops d =
      kept_or (s.limit_stops == 0) _ (stopped-Keeps s _ refl refl refl)
  step-Written destroys d = cc
  step-Written service_starts d =
      going (is_at service s.op) _
        (record { of_written = refl; of_queue = refl; of_ready = λ r. r })
  step-Written connects d =
      going (is_at connecting s.op) _
        (record { of_written = refl; of_queue = refl; of_ready = λ r. ground (arith, r) })
  step-Written (banner_arrives b) d =
      if-cases (Written (touched ++ [])) (is_at reading_banner s.op)
        (λ _. untouched _ (start_with-Written touched b s i)) (λ _. untouched s i)
  step-Written (start_breaks c) d =
      going (is_starting s.op) _ (record { of_written = refl; of_queue = refl; of_ready = λ r. r })
  step-Written (failing_ends now) d =
      if-cases (Written (touched ++ [])) (is_at (failing true) s.op)
        (λ _. kept-Written _ (failed_start-Keeps true now s))
        (λ _. going (is_at (failing false) s.op) _ (failed_start-Keeps false now s))
  step-Written stopping_ends d =
      going (is_at ending s.op) _ (ensure_state-Keeps s _ (stopped-Keeps s _ refl refl refl))

run-from :
    (steps : List Step) (touched : List Writer) (s : Consumer)
    → never_destroys steps ≡ true
    → Written touched s
    → Written (touched ++ touched_by steps) (run steps s)
unfolding run
run-from [] touched s d i = subst (λ (l : List Writer). Written l s) (sym (append-nil touched)) i
run-from (t ∷ steps) touched s d i =
    subst (λ (l : List Writer). Written l (run steps (step t s)))
      (append_assoc touched (touch_of t) (touched_by steps))
      (run-from steps (touched ++ touch_of t) (step t s) (ground arith)
        (step-Written touched s i t (ground arith)))

-- After any steps but a destruction, what was written and then what waits are the touches, each
-- once and in their order; each was written with a banner there, and a started consumer has a
-- socket and a banner, and nothing that waits.
pub run-Written :
    (steps : List Step) → never_destroys steps ≡ true → Written (touched_by steps) (run steps new)
unfolding new
run-Written steps d =
    run-from steps [] new d (record { of_ready = refl; of_order = refl; of_banners = refl })
