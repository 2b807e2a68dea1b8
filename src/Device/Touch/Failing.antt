-- ===== src/Device/Touch/Failing.antt =====
-- What a start that is under way keeps, and the end of one that has failed.
use mercury_farm.Base.{
  ℕ, ◌≡◌, refl, Bool, true, false, not, ◌&&◌, ◌||◌, Option, none, arith, if-cases, All, is_some,
}
use mercury_farm.Util.StateQueue.{empty}
use mercury_farm.Util.FailCounter
use mercury_farm.Device.Touch.{ensure_state, finish_stop, released, inc, failed_start}
use mercury_farm.Device.Touch.State.{
  Running, stopped, starting, started, stopping, Op, Consumer, state_stopped, Writer, queue_at,
  perform, needs_banner,
}
use mercury_farm.Device.Touch.Stays.{IsStopped, ensure_state-IsStopped}

-- what is under way meets a test, and only stops are asked for
pub record Awaits (f : Option Op → Bool) (s : Consumer) : Type 0 where
  pub of_op : f s.op ≡ true
  pub of_lock : s.lock ≡ true
  pub of_restarts : s.restarts ≡ 0
  pub of_desired : All (λ d. d ≡ state_stopped) s.desired

record IsDown (s : Consumer) : Type 0 where
  of_running : s.running ≡ stopped
  of_restarts : s.restarts ≡ 0
  of_desired : All (λ d. d ≡ state_stopped) s.desired

inc-IsDown : (now : ℕ) (s : Consumer) → IsDown s → IsDown (inc now s)
unfolding inc
inc-IsDown now s i =
    if-cases IsDown ((FailCounter.inc now s.fail_counter).1 && s.listening)
      (λ _. record {
        of_running = i.of_running;
        of_restarts = i.of_restarts;
        of_desired = i.of_desired;
      })
      (λ _. record {
        of_running = i.of_running;
        of_restarts = i.of_restarts;
        of_desired = i.of_desired;
      })

released-IsStopped : (s : Consumer) → IsDown s → IsStopped (released s)
unfolding released
released-IsStopped s i =
    ensure_state-IsStopped (record s { lock = false; op = none })
      (record {
        of_running = i.of_running;
        of_op = refl;
        of_lock = refl;
        of_restarts = i.of_restarts;
        of_desired = i.of_desired;
      })

pub failed_start-IsStopped :
    (f : Option Op → Bool) (c : Bool) (now : ℕ) (s : Consumer)
    → Awaits f s
    → IsStopped (failed_start c now s)
unfolding failed_start
failed_start-IsStopped f true now s i =
    released-IsStopped (finish_stop s)
      (record { of_running = refl; of_restarts = i.of_restarts; of_desired = i.of_desired })
failed_start-IsStopped f false now s i = released-IsStopped (inc now (finish_stop s)) (
    inc-IsDown now (finish_stop s)
      (record { of_running = refl; of_restarts = i.of_restarts; of_desired = i.of_desired }))

-- under the lock nothing is begun
pub locked-Awaits : (f : Option Op → Bool) (s : Consumer) → Awaits f s → Awaits f (ensure_state s)
unfolding ensure_state
locked-Awaits f s i =
    if-cases (Awaits f) (empty s.desired || (s.failed || s.lock)) (λ _. i)
      (λ n. absurd (ground (arith, n, i.of_lock)))

perform-Awaits :
    (f : Option Op → Bool) (w : Writer) (s : Consumer) → Awaits f s → Awaits f (perform w s)
unfolding perform
perform-Awaits f w s i =
    if-cases (Awaits f) (s.socket && (not (needs_banner w) || is_some s.banner))
      (λ _. record {
        of_op = i.of_op;
        of_lock = i.of_lock;
        of_restarts = i.of_restarts;
        of_desired = i.of_desired;
      })
      (λ _. i)

pub queue_at-Awaits :
    (f : Option Op → Bool) (r : Running) (w : Writer) (s : Consumer)
    → Awaits f s
    → Awaits f (queue_at r w s)
unfolding queue_at
queue_at-Awaits f started w s i = perform-Awaits f w s i
queue_at-Awaits f stopped w s i = record {
  of_op = i.of_op;
  of_lock = i.of_lock;
  of_restarts = i.of_restarts;
  of_desired = i.of_desired;
}
queue_at-Awaits f starting w s i = record {
  of_op = i.of_op;
  of_lock = i.of_lock;
  of_restarts = i.of_restarts;
  of_desired = i.of_desired;
}
queue_at-Awaits f stopping w s i = record {
  of_op = i.of_op;
  of_lock = i.of_lock;
  of_restarts = i.of_restarts;
  of_desired = i.of_desired;
}
