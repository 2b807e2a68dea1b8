-- ===== src/Device/Touch/Stays.antt =====
-- A consumer that is stopped, and what leaves it so.
use mathlib.Core.Path.{subst}
use mercury_farm.Base.{
  ℕ, ◌≡◌, refl, sym, Bool, true, false, not, ◌&&◌, ◌||◌, Option, none, some, List, [], ◌∷◌, arith,
  ◌==◌, if◌then◌else◌, if-cases, All,
}
use mercury_farm.Util.StateQueue.{next, empty}
use mercury_farm.Util.StateQueue.Unique.{All-push}
use mercury_farm.Util.FailCounter
use mercury_farm.Device.Touch.{
  start_state, ensured, ensure_state, desire, restart, restart_at, inc, restarted, failed_start,
  destroy, Step, starts, stops, configures, touches, stream_ends, immediate, recovers,
  restart_stops, destroys, service_starts, connects, banner_arrives, start_breaks, failing_ends,
  stopping_ends, is_at, is_starting, step, run,
}
use mercury_farm.Device.Touch.State.{
  Running, stopped, Op, service, connecting, reading_banner, ending, failing, Consumer, queue_write,
  queue_at, state_started, state_stopped,
}

pub record IsStopped (s : Consumer) : Type 0 where
  pub of_running : s.running ≡ stopped
  pub of_op : s.op ≡ none
  pub of_lock : s.lock ≡ false
  pub of_restarts : s.restarts ≡ 0
  pub of_desired : All (λ d. d ≡ state_stopped) s.desired

dropped-IsStopped :
    (s : Consumer) (queue : List ℕ)
    → IsStopped s
    → All (λ d. d ≡ state_stopped) queue
    → IsStopped (start_state (record s { desired = queue; lock = true }))
unfolding start_state next
dropped-IsStopped s [] i a = record {
  of_running = i.of_running;
  of_op = i.of_op;
  of_lock = refl;
  of_restarts = i.of_restarts;
  of_desired = a;
}
dropped-IsStopped s (d ∷ rest) i a =
    if-cases IsStopped (d == state_started) (λ h. absurd (ground (arith, h, a.0)))
      (λ _. record {
        of_running = i.of_running;
        of_op = i.of_op;
        of_lock = refl;
        of_restarts = i.of_restarts;
        of_desired = a.1;
      })

pub ensure_state-IsStopped : (s : Consumer) → IsStopped s → IsStopped (ensure_state s)
unfolding ensure_state ensured
ensure_state-IsStopped s i =
    if-cases IsStopped (empty s.desired || (s.failed || s.lock)) (λ _. i)
      (λ _.
        subst (λ (r : Running). IsStopped (ensured r (record s { lock = true }))) (sym i.of_running)
          (dropped-IsStopped s s.desired i i.of_desired))

restart-IsStopped : (s : Consumer) → IsStopped s → IsStopped (restart s)
unfolding restart restart_at
restart-IsStopped s i = subst (λ (r : Running). IsStopped (restart_at r s)) (sym i.of_running) i

inc-IsStopped : (now : ℕ) (s : Consumer) → IsStopped s → IsStopped (inc now s)
unfolding inc
inc-IsStopped now s i =
    if-cases IsStopped ((FailCounter.inc now s.fail_counter).1 && s.listening)
      (λ _. record {
        of_running = i.of_running;
        of_op = i.of_op;
        of_lock = i.of_lock;
        of_restarts = i.of_restarts;
        of_desired = i.of_desired;
      })
      (λ _. record {
        of_running = i.of_running;
        of_op = i.of_op;
        of_lock = i.of_lock;
        of_restarts = i.of_restarts;
        of_desired = i.of_desired;
      })

-- `start`, and the start that a recovery makes
abbrev pub is_start : Step → Bool
is_start starts = true
is_start recovers = true
is_start _ = false

abbrev pub no_start : List Step → Bool
no_start [] = true
no_start (t ∷ steps) = not (is_start t) && no_start steps

module _ (s : Consumer) (i : IsStopped s) where
  idle : (o : Op) (t : Consumer) → IsStopped (if is_at o s.op then t else s)
  idle o t = subst (λ (p : Option Op). IsStopped (if is_at o p then t else s)) (sym i.of_op) i

  pub step-IsStopped : (t : Step) → is_start t ≡ false → IsStopped (step t s)
  unfolding step desire queue_write queue_at destroy
  step-IsStopped starts n = cc
  step-IsStopped stops n = ensure_state-IsStopped _ (record {
    of_running = i.of_running;
    of_op = i.of_op;
    of_lock = i.of_lock;
    of_restarts = i.of_restarts;
    of_desired = All-push (λ d. d ≡ state_stopped) state_stopped s.desired refl i.of_desired;
  })
  step-IsStopped configures n = restart-IsStopped s i
  step-IsStopped (touches w) n =
      subst (λ (r : Running). IsStopped (queue_at r w s)) (sym i.of_running)
        (record {
          of_running = i.of_running;
          of_op = i.of_op;
          of_lock = i.of_lock;
          of_restarts = i.of_restarts;
          of_desired = i.of_desired;
        })
  step-IsStopped (stream_ends now) n = restart-IsStopped (inc now s) (inc-IsStopped now s i)
  step-IsStopped immediate n =
      if-cases IsStopped (s.immediates == 0) (λ _. i)
        (λ _. ensure_state-IsStopped _ (record {
          of_running = i.of_running;
          of_op = i.of_op;
          of_lock = i.of_lock;
          of_restarts = i.of_restarts;
          of_desired = i.of_desired;
        }))
  step-IsStopped recovers n = cc
  step-IsStopped restart_stops n =
      subst (λ (k : ℕ). IsStopped (if k == 0 then s else restarted s)) (sym i.of_restarts) i
  step-IsStopped Step.limit_stops n =
      if-cases IsStopped (s.limit_stops == 0) (λ _. i)
        (λ _. record {
          of_running = refl;
          of_op = i.of_op;
          of_lock = i.of_lock;
          of_restarts = i.of_restarts;
          of_desired = i.of_desired;
        })
  step-IsStopped destroys n = record {
    of_running = i.of_running;
    of_op = i.of_op;
    of_lock = i.of_lock;
    of_restarts = i.of_restarts;
    of_desired = i.of_desired;
  }
  step-IsStopped service_starts n = idle service _
  step-IsStopped connects n = idle connecting _
  step-IsStopped (banner_arrives b) n = idle reading_banner _
  step-IsStopped (start_breaks c) n =
      subst
        (λ (p : Option Op).
          IsStopped (if is_starting p then record s { op = some (failing c) } else s))
        (sym i.of_op) i
  step-IsStopped (failing_ends now) n =
      subst
        (λ (p : Option Op). IsStopped (
          if is_at (failing true) p
          then failed_start true now s
          else (if is_at (failing false) p then failed_start false now s else s)))
        (sym i.of_op) i
  step-IsStopped stopping_ends n = idle ending _

pub run-IsStopped :
    (steps : List Step) (s : Consumer)
    → no_start steps ≡ true
    → IsStopped s
    → IsStopped (run steps s)
unfolding run
run-IsStopped [] s n i = i
run-IsStopped (t ∷ steps) s n i =
    run-IsStopped steps (step t s) (ground arith) (step-IsStopped s i t (ground arith))
