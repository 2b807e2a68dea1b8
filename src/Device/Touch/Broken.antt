-- ===== src/Device/Touch/Broken.antt =====
-- A start that fails.
use mathlib.Core.Path.{subst}
use mercury_farm.Base.{
  ℕ, ◌≡◌, refl, sym, ap, ◌∙◌, Bool, true, false, Option, none, some, List, [], ◌∷◌, ◌++◌, arith,
  if-cases, inl, inr, ◌||◌,
}
use mercury_farm.Util.StateQueue.{next, empty, push, cut_after}
use mercury_farm.Device.Touch.{
  start_state, ensured, ensure_state, desire, Step, starts, start_breaks, failing_ends, is_at,
  is_starting, step, run,
}
use mercury_farm.Device.Touch.State.{
  stopped, Op, service, connecting, reading_banner, ending, failing, Consumer,
}
use mercury_farm.Device.Touch.Stays.{IsStopped, step-IsStopped, no_start, run-IsStopped}
use mercury_farm.Device.Touch.Failing.{Awaits, failed_start-IsStopped}
use mercury_farm.Device.Touch.Underway.{Keeps, Phase, are_calm, run-Phase}

-- stopped, with nothing under way
pub record IsIdle (s : Consumer) : Type 0 where
  pub of_running : s.running ≡ stopped
  pub of_op : s.op ≡ none
  pub of_lock : s.lock ≡ false
  pub of_failed : s.failed ≡ false
  pub of_restarts : s.restarts ≡ 0
  pub of_desired : s.desired ≡ []

-- a start that goes on or has failed, and one that has failed
abbrev is_failing : Option Op → Bool
is_failing o = is_at (failing true) o || is_at (failing false) o

abbrev is_pending : Option Op → Bool
is_pending o = is_starting o || is_failing o

failing_at : (c : Bool) → is_failing (some (failing c)) ≡ true
failing_at true = refl
failing_at false = refl

pending_at : (c : Bool) → is_pending (some (failing c)) ≡ true
pending_at true = refl
pending_at false = refl

not_pending : (o : Option Op) → is_pending o ≡ true → is_at ending o ≡ false
not_pending none p = refl
not_pending (some service) p = refl
not_pending (some connecting) p = refl
not_pending (some reading_banner) p = refl
not_pending (some ending) p = cc
not_pending (some (failing true)) p = refl
not_pending (some (failing false)) p = refl

not_ending : (o : Option Op) → is_failing o ≡ true → is_at ending o ≡ false
not_ending o p = not_pending o (ground (arith, p))

not_starting :
    (o : Option Op)
    → is_failing o ≡ true
    → is_at service o ≡ true
    → is_failing (some connecting) ≡ true
not_starting none p h = cc
not_starting (some service) p h = cc
not_starting (some connecting) p h = cc
not_starting (some reading_banner) p h = cc
not_starting (some ending) p h = cc
not_starting (some (failing true)) p h = cc
not_starting (some (failing false)) p h = cc

not_connecting :
    (o : Option Op)
    → is_failing o ≡ true
    → is_at connecting o ≡ true
    → is_failing (some reading_banner) ≡ true
not_connecting none p h = cc
not_connecting (some service) p h = cc
not_connecting (some connecting) p h = cc
not_connecting (some reading_banner) p h = cc
not_connecting (some ending) p h = cc
not_connecting (some (failing true)) p h = cc
not_connecting (some (failing false)) p h = cc

pending-Keeps : Keeps is_pending
pending-Keeps = record {
  of_service = λ o p h. refl;
  of_connecting = λ o p h. refl;
  of_failing = pending_at;
  of_ending = not_pending;
}

failing-Keeps : Keeps is_failing
failing-Keeps = record {
  of_service = not_starting;
  of_connecting = not_connecting;
  of_failing = failing_at;
  of_ending = not_ending;
}

starts-Awaits : (s : Consumer) → IsIdle s → Awaits is_pending (step starts s)
unfolding step desire push cut_after ensure_state empty ensured start_state next
starts-Awaits s i =
    let same : s
        ≡ record s { running = stopped; op = none; lock = false; failed = false; desired = [] } =
      (λ k. record s {
        running = i.of_running k;
        op = i.of_op k;
        lock = i.of_lock k;
        failed = i.of_failed k;
        desired = i.of_desired k;
      }) in
    subst (λ (t : Consumer). Awaits is_pending (step starts t)) (sym same)
      (record { of_op = refl; of_lock = refl; of_restarts = i.of_restarts; of_desired = tt })

breaks-Phase :
    (c : Bool) (s : Consumer) → Phase is_pending s → Phase is_failing (step (start_breaks c) s)
unfolding step
breaks-Phase c s (inl i) =
    if-cases (Phase is_failing) (is_starting s.op)
      (λ _. inl (record {
        of_op = failing_at c;
        of_lock = i.of_lock;
        of_restarts = i.of_restarts;
        of_desired = i.of_desired;
      }))
      (λ n. inl (record {
        of_op = ground (arith, n, i.of_op);
        of_lock = i.of_lock;
        of_restarts = i.of_restarts;
        of_desired = i.of_desired;
      }))
breaks-Phase c s (inr i) = inr (step-IsStopped s i (start_breaks c) refl)

ends-IsStopped :
    (now : ℕ) (s : Consumer) → Phase is_failing s → IsStopped (step (failing_ends now) s)
unfolding step
ends-IsStopped now s (inl i) =
    if-cases IsStopped (is_at (failing true) s.op)
      (λ _. failed_start-IsStopped is_failing true now s i)
      (λ n.
        if-cases IsStopped (is_at (failing false) s.op)
          (λ _. failed_start-IsStopped is_failing false now s i)
          (λ m. absurd (ground (arith, n, m, i.of_op))))
ends-IsStopped now s (inr i) = step-IsStopped s i (failing_ends now) refl

run-append : (a b : List Step) (s : Consumer) → run (a ++ b) s ≡ run b (run a s)
unfolding run
run-append [] b s = refl
run-append (t ∷ a) b s = run-append a b (step t s)

-- A start of an idle consumer that fails before its banner is read, if until that failure is dealt
-- with no other start is asked for, no recovery comes, no stream ends and the configuration does
-- not change: it leaves the consumer stopped, and so it stays whatever follows, apart from another
-- start or a recovery.
pub broken_start-is_final :
    (s : Consumer) (before : List Step) (c : Bool) (between : List Step) (now : ℕ)
    (after : List Step)
    → IsIdle s
    → are_calm before ≡ true
    → are_calm between ≡ true
    → no_start after ≡ true
    → (run (starts ∷ before ++ start_breaks c ∷ between ++ failing_ends now ∷ after) s).running
      ≡ stopped
unfolding run
broken_start-is_final s before c between now after i p q n =
    let begun = run-Phase is_pending before _ pending-Keeps p (inl (starts-Awaits s i)) in
    let broken = run-Phase is_failing between _ failing-Keeps q (breaks-Phase c _ begun) in
    ap (λ (t : Consumer). t.running)
      (run-append (starts ∷ before ++ start_breaks c ∷ between) (failing_ends now ∷ after) s
        ∙ ap (run (failing_ends now ∷ after))
            (run-append (starts ∷ before) (start_breaks c ∷ between) s))
    ∙ (run-IsStopped after _ n (ends-IsStopped now _ broken)).of_running
