-- ===== src/Device/Touch/Underway.antt =====
-- A start that is under way or has failed, while nothing disturbs it.
use mathlib.Core.Path.{subst}
use mercury_farm.Base.{
  ℕ, ◌≡◌, refl, sym, Bool, true, false, not, ◌&&◌, Option, some, List, [], ◌∷◌, arith, ◌==◌,
  if◌then◌else◌, if-cases, ◌⊎◌, inl, inr,
}
use mercury_farm.Util.StateQueue.Unique.{All-push}
use mercury_farm.Device.Touch.{
  desire, Step, starts, stops, configures, touches, stream_ends, immediate, recovers, restart_stops,
  destroys, restarted, destroy, service_starts, connects, banner_arrives, start_breaks,
  failing_ends, stopping_ends, is_at, is_starting, step, run,
}
use mercury_farm.Device.Touch.State.{
  Op, service, connecting, reading_banner, ending, failing, Consumer, state_stopped, queue_write,
}
use mercury_farm.Device.Touch.Stays.{IsStopped, is_start, step-IsStopped}
use mercury_farm.Device.Touch.Failing.{
  Awaits, failed_start-IsStopped, locked-Awaits, queue_at-Awaits,
}

-- a test of what is under way that a start which goes on or fails keeps
pub record Keeps (f : Option Op → Bool) : Type 0 where
  pub of_service :
      (o : Option Op) → f o ≡ true → is_at service o ≡ true → f (some connecting) ≡ true
  pub of_connecting :
      (o : Option Op) → f o ≡ true → is_at connecting o ≡ true → f (some reading_banner) ≡ true
  pub of_failing : (c : Bool) → f (some (failing c)) ≡ true
  pub of_ending : (o : Option Op) → f o ≡ true → is_at ending o ≡ false

abbrev pub is_disturbing : Step → Bool
is_disturbing configures = true
is_disturbing (stream_ends now) = true
is_disturbing (banner_arrives b) = true
is_disturbing _ = false

-- no other start, no recovery, no change of the configuration, no end of a stream and no banner
abbrev pub is_calm : Step → Bool
is_calm t = not (is_start t) && not (is_disturbing t)

abbrev pub are_calm : List Step → Bool
are_calm [] = true
are_calm (t ∷ steps) = is_calm t && are_calm steps

-- it awaits, or the consumer is stopped
abbrev pub Phase : (Option Op → Bool) → Consumer → Type 0
Phase f s = Awaits f s ⊎ IsStopped s

module _ (f : Option Op → Bool) (k : Keeps f) (s : Consumer) (i : Awaits f s) where
  step-Awaits : (t : Step) → is_calm t ≡ true → Phase f (step t s)
  unfolding step desire queue_write destroy
  step-Awaits starts c = cc
  step-Awaits stops c = inl (
      locked-Awaits f _ (record {
        of_op = i.of_op;
        of_lock = i.of_lock;
        of_restarts = i.of_restarts;
        of_desired = All-push (λ d. d ≡ state_stopped) state_stopped s.desired refl i.of_desired;
      }))
  step-Awaits configures c = cc
  step-Awaits (touches w) c = inl (queue_at-Awaits f s.running w s i)
  step-Awaits (stream_ends now) c = cc
  step-Awaits immediate c =
      if-cases (Phase f) (s.immediates == 0) (λ _. inl i)
        (λ _. inl (
          locked-Awaits f _ (record {
            of_op = i.of_op;
            of_lock = i.of_lock;
            of_restarts = i.of_restarts;
            of_desired = i.of_desired;
          })))
  step-Awaits recovers c = cc
  step-Awaits restart_stops c =
      subst (λ (n : ℕ). Phase f (if n == 0 then s else restarted s)) (sym i.of_restarts) (inl i)
  step-Awaits Step.limit_stops c =
      if-cases (Phase f) (s.limit_stops == 0) (λ _. inl i)
        (λ _. inl (record {
          of_op = i.of_op;
          of_lock = i.of_lock;
          of_restarts = i.of_restarts;
          of_desired = i.of_desired;
        }))
  step-Awaits destroys c = inl (record {
    of_op = i.of_op;
    of_lock = i.of_lock;
    of_restarts = i.of_restarts;
    of_desired = i.of_desired;
  })
  step-Awaits service_starts c =
      if-cases (Phase f) (is_at service s.op)
        (λ h. inl (record {
          of_op = k.of_service s.op i.of_op h;
          of_lock = i.of_lock;
          of_restarts = i.of_restarts;
          of_desired = i.of_desired;
        }))
        (λ _. inl i)
  step-Awaits connects c =
      if-cases (Phase f) (is_at connecting s.op)
        (λ h. inl (record {
          of_op = k.of_connecting s.op i.of_op h;
          of_lock = i.of_lock;
          of_restarts = i.of_restarts;
          of_desired = i.of_desired;
        }))
        (λ _. inl i)
  step-Awaits (banner_arrives b) c = cc
  step-Awaits (start_breaks b) c =
      if-cases (Phase f) (is_starting s.op)
        (λ h. inl (record {
          of_op = k.of_failing b;
          of_lock = i.of_lock;
          of_restarts = i.of_restarts;
          of_desired = i.of_desired;
        }))
        (λ _. inl i)
  step-Awaits (failing_ends now) c =
      if-cases (Phase f) (is_at (failing true) s.op)
        (λ _. inr (failed_start-IsStopped f true now s i))
        (λ _.
          if-cases (Phase f) (is_at (failing false) s.op)
            (λ _. inr (failed_start-IsStopped f false now s i)) (λ _. inl i))
  step-Awaits stopping_ends c =
      if-cases (Phase f) (is_at ending s.op)
        (λ h. absurd (ground (arith, h, k.of_ending s.op i.of_op))) (λ _. inl i)

calm-is_start : (t : Step) → is_calm t ≡ true → is_start t ≡ false
calm-is_start t c = ground arith

pub step-Phase :
    (f : Option Op → Bool) (t : Step) (s : Consumer)
    → Keeps f
    → is_calm t ≡ true
    → Phase f s
    → Phase f (step t s)
step-Phase f t s k c (inl i) = step-Awaits f k s i t c
step-Phase f t s k c (inr i) = inr (step-IsStopped s i t (calm-is_start t c))

pub run-Phase :
    (f : Option Op → Bool) (steps : List Step) (s : Consumer)
    → Keeps f
    → are_calm steps ≡ true
    → Phase f s
    → Phase f (run steps s)
unfolding run
run-Phase f [] s k c i = i
run-Phase f (t ∷ steps) s k c i =
    run-Phase f steps (step t s) k (ground arith) (step-Phase f t s k (ground arith) i)
