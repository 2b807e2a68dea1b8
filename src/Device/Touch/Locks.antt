-- ===== src/Device/Touch/Locks.antt =====
-- The lock of `_ensureState`, and whether a desired state can be left behind.
use mercury_farm.Base.{
  ℕ, ◌-◌, ◌≡◌, refl, sym, ap, ◌∙◌, Bool, true, false, not, ◌&&◌, ◌||◌, Option, none, some, List, [],
  ◌∷◌, arith, ltb, ◌==◌, if-cases, is_some,
}
use mercury_farm.Util.StateQueue.{next, empty, push}
use mercury_farm.Util.FailCounter
use mercury_farm.Device.Touch.{
  restart_at, is_next, start_state, stop_state, ensured, ensure_state, desire, restart, finish_stop,
  restarted, inc, recovered, released, start_with, failed_start, destroy, Step, starts, stops,
  configures, touches, stream_ends, immediate, recovers, restart_stops, destroys, service_starts,
  connects, banner_arrives, start_breaks, failing_ends, stopping_ends, is_at, is_starting, step,
  run,
}
use mercury_farm.Device.Touch.State.{
  Running, stopped, starting, started, stopping, Banner, Writer, Op, service, connecting,
  reading_banner, ending, failing, Consumer, new, perform, queue_write, queue_at, needs_banner,
  process_write_queue, state_started, state_stopped,
}

abbrev pub is_rest : Running → Bool
is_rest stopped = true
is_rest started = true
is_rest _ = false

-- before the desired state is ensured
pub record IsLocked (s : Consumer) : Type 0 where
  pub of_op : s.lock ≡ is_some s.op
  pub of_rest : s.lock || is_rest s.running ≡ true

pub record Locks (s : Consumer) : Type 0 where
  pub is_locked : IsLocked s
  pub of_desired : s.lock || (s.failed || (ltb 0 s.immediates || empty s.desired)) ≡ true

start_state-Locks :
    (s : Consumer) → s.op ≡ none → s.lock ≡ true → s.running ≡ stopped → Locks (start_state s)
unfolding start_state
start_state-Locks s o l r =
    if-cases Locks (is_next state_started (next s.desired).0)
      (λ _. record {
        is_locked = record { of_op = l; of_rest = ground arith };
        of_desired = ground arith;
      })
      (λ _. record {
        is_locked = record { of_op = ground arith; of_rest = ground arith };
        of_desired = ground arith;
      })

stop_state-Locks :
    (s : Consumer) → s.op ≡ none → s.lock ≡ true → s.running ≡ started → Locks (stop_state s)
unfolding stop_state
stop_state-Locks s o l r =
    if-cases Locks (is_next state_stopped (next s.desired).0)
      (λ _. record {
        is_locked = record { of_op = l; of_rest = ground arith };
        of_desired = ground arith;
      })
      (λ _. record {
        is_locked = record { of_op = ground arith; of_rest = ground arith };
        of_desired = ground arith;
      })

ensured-Locks :
    (r : Running) (s : Consumer)
    → s.running ≡ r
    → s.op ≡ none
    → s.lock ≡ true
    → is_rest r ≡ true
    → Locks (ensured r s)
unfolding ensured
ensured-Locks stopped s e o l h = start_state-Locks s o l e
ensured-Locks started s e o l h = stop_state-Locks s o l e
ensured-Locks starting s e o l h = cc
ensured-Locks stopping s e o l h = cc

pub no_op : (op : Option Op) → false ≡ is_some op → op ≡ none
no_op none e = refl
no_op (some op) e = cc

pub ensure_state-Locks : (s : Consumer) → IsLocked s → Locks (ensure_state s)
unfolding ensure_state
ensure_state-Locks s i =
    if-cases Locks (empty s.desired || (s.failed || s.lock))
      (λ h. record { is_locked = i; of_desired = ground arith })
      (λ h.
        let unlocked : s.lock ≡ false = ground arith in
        ensured-Locks s.running (record s { lock = true }) refl
          (no_op s.op (sym unlocked ∙ i.of_op)) refl (ground (arith, i.of_rest)))

restart_at-Locks : (r : Running) (s : Consumer) → Locks s → Locks (restart_at r s)
unfolding restart_at
restart_at-Locks started s w = record {
  is_locked = record { of_op = w.is_locked.of_op; of_rest = w.is_locked.of_rest };
  of_desired = w.of_desired;
}
restart_at-Locks starting s w = record {
  is_locked = record { of_op = w.is_locked.of_op; of_rest = w.is_locked.of_rest };
  of_desired = w.of_desired;
}
restart_at-Locks stopped s w = w
restart_at-Locks stopping s w = w

perform-Locks : (w : Writer) (s : Consumer) → Locks s → Locks (perform w s)
unfolding perform
perform-Locks w s i =
    if-cases Locks (s.socket && (not (needs_banner w) || is_some s.banner))
      (λ _. record {
        is_locked = record { of_op = i.is_locked.of_op; of_rest = i.is_locked.of_rest };
        of_desired = i.of_desired;
      })
      (λ _. i)

queue_at-Locks : (r : Running) (w : Writer) (s : Consumer) → Locks s → Locks (queue_at r w s)
unfolding queue_at
queue_at-Locks started w s i = perform-Locks w s i
queue_at-Locks stopped w s i = record {
  is_locked = record { of_op = i.is_locked.of_op; of_rest = i.is_locked.of_rest };
  of_desired = i.of_desired;
}
queue_at-Locks starting w s i = record {
  is_locked = record { of_op = i.is_locked.of_op; of_rest = i.is_locked.of_rest };
  of_desired = i.of_desired;
}
queue_at-Locks stopping w s i = record {
  is_locked = record { of_op = i.is_locked.of_op; of_rest = i.is_locked.of_rest };
  of_desired = i.of_desired;
}

inc-Locks : (now : ℕ) (s : Consumer) → Locks s → Locks (inc now s)
unfolding inc
inc-Locks now s i =
    if-cases Locks ((FailCounter.inc now s.fail_counter).1 && s.listening)
      (λ _. record {
        is_locked = record { of_op = i.is_locked.of_op; of_rest = i.is_locked.of_rest };
        of_desired = ground arith;
      })
      (λ _. record {
        is_locked = record { of_op = i.is_locked.of_op; of_rest = i.is_locked.of_rest };
        of_desired = i.of_desired;
      })

desire-Locks : (state : ℕ) (s : Consumer) → IsLocked s → Locks (desire state s)
unfolding desire
desire-Locks state s i =
    ensure_state-Locks (record s { desired = push state s.desired })
      (record { of_op = i.of_op; of_rest = i.of_rest })

released-Locks : (s : Consumer) → is_rest s.running ≡ true → Locks (released s)
unfolding released
released-Locks s r =
    ensure_state-Locks (record s { lock = false; op = none }) (record { of_op = refl; of_rest = r })

start_with-Locks : (b : Banner) (s : Consumer) → s.lock ≡ true → Locks (start_with b s)
unfolding start_with
start_with-Locks b s l =
    if-cases Locks s.socket
      (λ _.
        released-Locks
          (record (process_write_queue (record s { banner = some b })) { running = started }) refl)
      (λ _. record {
        is_locked = record { of_op = l; of_rest = ground arith };
        of_desired = ground arith;
      })

inc-running : (now : ℕ) (s : Consumer) → (inc now s).running ≡ s.running
unfolding inc
inc-running now s =
    if-cases (λ (t : Consumer). t.running ≡ s.running)
      ((FailCounter.inc now s.fail_counter).1 && s.listening) (λ _. refl) (λ _. refl)

failed_start-Locks : (c : Bool) (now : ℕ) (s : Consumer) → Locks (failed_start c now s)
unfolding failed_start
failed_start-Locks true now s = released-Locks (finish_stop s) refl
failed_start-Locks false now s =
    released-Locks (inc now (finish_stop s)) (ap is_rest (inc-running now (finish_stop s)))

pub is_at-lock :
    (o : Op) (op : Option Op) (lock : Bool) → lock ≡ is_some op → is_at o op ≡ true → lock ≡ true
is_at-lock o none lock e h = cc
is_at-lock o (some p) lock e h = e

is_starting-lock :
    (op : Option Op) (lock : Bool) → lock ≡ is_some op → is_starting op ≡ true → lock ≡ true
is_starting-lock none lock e h = cc
is_starting-lock (some p) lock e h = e

going-Locks : (s t : Consumer) → s.lock ≡ true → t.lock ≡ s.lock → is_some t.op ≡ true → Locks t
going-Locks s t l e o = record {
  is_locked = record { of_op = ground arith; of_rest = ground arith };
  of_desired = ground arith;
}

step-Locks : (t : Step) (s : Consumer) → Locks s → Locks (step t s)
unfolding step restart queue_write restarted recovered destroy
step-Locks starts s i = desire-Locks state_started s i.is_locked
step-Locks stops s i = desire-Locks state_stopped s i.is_locked
step-Locks configures s i = restart_at-Locks s.running s i
step-Locks (touches w) s i = queue_at-Locks s.running w s i
step-Locks (stream_ends now) s i =
    restart_at-Locks (inc now s).running (inc now s) (inc-Locks now s i)
step-Locks immediate s i =
    if-cases Locks (s.immediates == 0) (λ _. i)
      (λ _.
        ensure_state-Locks (record s { immediates = s.immediates - 1 })
          (record { of_op = i.is_locked.of_op; of_rest = i.is_locked.of_rest }))
step-Locks recovers s i =
    if-cases Locks (s.timers == 0) (λ _. i)
      (λ _.
        desire-Locks state_started _
          (record { of_op = i.is_locked.of_op; of_rest = i.is_locked.of_rest }))
step-Locks restart_stops s i =
    if-cases Locks (s.restarts == 0) (λ _. i)
      (λ _. ensure_state-Locks _ (record { of_op = i.is_locked.of_op; of_rest = ground arith }))
step-Locks Step.limit_stops s i =
    if-cases Locks (s.limit_stops == 0) (λ _. i)
      (λ _. record {
        is_locked = record { of_op = i.is_locked.of_op; of_rest = ground arith };
        of_desired = i.of_desired;
      })
step-Locks destroys s i = record {
  is_locked = record { of_op = i.is_locked.of_op; of_rest = i.is_locked.of_rest };
  of_desired = i.of_desired;
}
step-Locks service_starts s i =
    if-cases Locks (is_at service s.op)
      (λ h. going-Locks s _ (is_at-lock service s.op s.lock i.is_locked.of_op h) refl refl) (λ _. i)
step-Locks connects s i =
    if-cases Locks (is_at connecting s.op)
      (λ h. going-Locks s _ (is_at-lock connecting s.op s.lock i.is_locked.of_op h) refl refl)
      (λ _. i)
step-Locks (banner_arrives b) s i =
    if-cases Locks (is_at reading_banner s.op)
      (λ h. start_with-Locks b s (is_at-lock reading_banner s.op s.lock i.is_locked.of_op h))
      (λ _. i)
step-Locks (start_breaks c) s i =
    if-cases Locks (is_starting s.op)
      (λ h. going-Locks s _ (is_starting-lock s.op s.lock i.is_locked.of_op h) refl refl) (λ _. i)
step-Locks (failing_ends now) s i =
    if-cases Locks (is_at (failing true) s.op) (λ _. failed_start-Locks true now s)
      (λ _.
        if-cases Locks (is_at (failing false) s.op) (λ _. failed_start-Locks false now s) (λ _. i))
step-Locks stopping_ends s i =
    if-cases Locks (is_at ending s.op) (λ _. released-Locks (finish_stop s) refl) (λ _. i)

pub steps-Locks : (steps : List Step) (s : Consumer) → Locks s → Locks (run steps s)
unfolding run
steps-Locks [] s i = i
steps-Locks (t ∷ steps) s i = steps-Locks steps (step t s) (step-Locks t s i)

-- After any steps the lock is held exactly while a start or a stop is under way; without it the
-- consumer is stopped or started, and a desired state is left only after too many failures or with
-- a call of `_ensureState` still to come.
pub run-Locks : (steps : List Step) → Locks (run steps new)
unfolding new empty
run-Locks steps =
    steps-Locks steps new
      (record { is_locked = record { of_op = refl; of_rest = refl }; of_desired = refl })
