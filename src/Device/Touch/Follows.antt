-- ===== src/Device/Touch/Follows.antt =====
-- What is reached when nothing fails: the state that was asked for last.
use mathlib.Core.Path.{subst}
use mercury_farm.Base.{
  ℕ, ◌-◌, ◌≡◌, refl, sym, ap, ◌∙◌, Bool, true, false, not, ◌&&◌, ◌||◌, Option, none, some, List, [],
  ◌∷◌, ◌++◌, arith, ◌==◌, if-cases, is_some, All,
}
use mercury_farm.Util.StateQueue.{empty}
use mercury_farm.Util.StateQueue.Unique.{last}
use mercury_farm.Device.Touch.{
  finish_stop, released, start_with, destroy, Step, starts, stops, configures, touches, stream_ends,
  immediate, recovers, restart_stops, destroys, service_starts, connects, banner_arrives,
  start_breaks, failing_ends, stopping_ends, is_at, step, run,
}
use mercury_farm.Device.Touch.State.{
  Running, stopped, starting, started, stopping, Banner, Writer, Op, service, connecting,
  reading_banner, ending, Consumer, new, perform, queue_write, queue_at, needs_banner, flush,
  process_write_queue, state_started, state_stopped,
}
use mercury_farm.Device.Touch.Locks.{is_rest, IsLocked, Locks, run-Locks, no_op, is_at-lock}
use mercury_farm.Device.Touch.Aims.{
  state_of, number_of, is_rest-number_of, aim, or_aim, IsState, is_failing, Follows,
  ensure_state-Follows, desire-Follows,
}

abbrev pub want_of : ℕ → Step → ℕ
want_of wanted starts = state_started
want_of wanted stops = state_stopped
want_of wanted _ = wanted

-- what was asked for last
abbrev pub wanted_after : ℕ → List Step → ℕ
wanted_after wanted [] = wanted
wanted_after wanted (t ∷ steps) = wanted_after (want_of wanted t) steps

-- the requests, the touches, and what comes of an operation that does not fail
abbrev pub is_smooth : Step → Bool
is_smooth configures = false
is_smooth (stream_ends now) = false
is_smooth recovers = false
is_smooth restart_stops = false
is_smooth Step.limit_stops = false
is_smooth (start_breaks c) = false
is_smooth (failing_ends now) = false
is_smooth _ = true

abbrev pub are_smooth : List Step → Bool
are_smooth [] = true
are_smooth (t ∷ steps) = is_smooth t && are_smooth steps

pub flush-same :
    (ws : List Writer) (s : Consumer)
    → (c : List (Writer × Option Banner)) × (flush ws s ≡ record s { written = c })
unfolding flush perform
flush-same [] s = (s.written, refl)
flush-same (w ∷ ws) s =
    if-cases
      (λ (t : Consumer).
        (c : List (Writer × Option Banner)) × (flush ws t ≡ record s { written = c }))
      (s.socket && (not (needs_banner w) || is_some s.banner))
      (λ _. flush-same ws (record s { written = s.written ++ (w, s.banner) ∷ [] }))
      (λ _. flush-same ws s)

reading_aims :
    (op : Option Op) (r : Running) → is_at reading_banner op ≡ true → state_started ≡ aim op r
reading_aims op r h = ground (arith, h)

service_aims : (op : Option Op) (r : Running) → is_at service op ≡ true → state_started ≡ aim op r
service_aims op r h = ground (arith, h)

connecting_aims :
    (op : Option Op) (r : Running) → is_at connecting op ≡ true → state_started ≡ aim op r
connecting_aims op r h = ground (arith, h)

ending_aims : (op : Option Op) (r : Running) → is_at ending op ≡ true → state_stopped ≡ aim op r
ending_aims op r h = ground (arith, h)

module _ (wanted : ℕ) (s : Consumer) (i : Follows wanted s) where
  moved-Follows :
      (t : Consumer)
      → IsLocked t
      → t.failed ≡ s.failed
      → is_failing t.op ≡ false
      → not (is_at reading_banner t.op) || t.socket ≡ true
      → t.desired ≡ s.desired
      → aim t.op t.running ≡ aim s.op s.running
      → Follows wanted t
  moved-Follows t l f n k d e = record {
    of_lock = l;
    of_failed = f ∙ i.of_failed;
    of_failing = n;
    of_socket = k;
    of_states = subst (All IsState) (sym d) i.of_states;
    of_aim =
        ap (λ (q : List ℕ). or_aim (last q) (aim t.op t.running)) d
        ∙ (ap (or_aim (last s.desired)) e ∙ i.of_aim);
  }

  same-Follows :
      (t : Consumer)
      → t.lock ≡ s.lock
      → t.op ≡ s.op
      → t.running ≡ s.running
      → t.failed ≡ s.failed
      → t.socket ≡ s.socket
      → t.desired ≡ s.desired
      → Follows wanted t
  same-Follows t l o r f k d =
      moved-Follows t
        (record {
          of_op = l ∙ (i.of_lock.of_op ∙ ap is_some (sym o));
          of_rest = ground (arith, l, r, i.of_lock.of_rest);
        })
        f (ap is_failing o ∙ i.of_failing)
        (ap (λ (c : Bool). not (is_at reading_banner t.op) || c) k
          ∙ (ap (λ (x : Option Op). not (is_at reading_banner x) || s.socket) o ∙ i.of_socket))
        d (ap (λ (x : Option Op). aim x t.running) o ∙ ap (aim s.op) r)

  -- a step within an operation
  going-Follows :
      (t : Consumer)
      → s.lock ≡ true
      → t.lock ≡ s.lock
      → t.failed ≡ s.failed
      → is_failing t.op ≡ false
      → not (is_at reading_banner t.op) || t.socket ≡ true
      → is_some t.op ≡ true
      → t.desired ≡ s.desired
      → aim t.op t.running ≡ aim s.op s.running
      → Follows wanted t
  going-Follows t l e f n k o d a =
      moved-Follows t
        (record {
          of_op = e ∙ (l ∙ sym o);
          of_rest = ap (λ (c : Bool). c || is_rest t.running) (e ∙ l);
        })
        f n k d a

  -- what is under way ends in a state of rest that it aimed at
  released-Follows :
      (t : Consumer)
      → is_rest t.running ≡ true
      → t.failed ≡ false
      → t.desired ≡ s.desired
      → state_of t.running ≡ aim s.op s.running
      → Follows wanted (released t)
  unfolding released
  released-Follows t r f d e =
      ensure_state-Follows wanted (record t { lock = false; op = none })
        (record {
          of_lock = record { of_op = refl; of_rest = r };
          of_failed = f;
          of_failing = refl;
          of_socket = refl;
          of_states = subst (All IsState) (sym d) i.of_states;
          of_aim =
              ap (λ (q : List ℕ). or_aim (last q) (state_of t.running)) d
              ∙ (ap (or_aim (last s.desired)) e ∙ i.of_aim);
        })

  start_with-Follows :
      (b : Banner) → is_at reading_banner s.op ≡ true → Follows wanted (start_with b s)
  unfolding start_with process_write_queue
  start_with-Follows b h =
      let t : Consumer = record s { banner = some b; write_queue = [] } in
      let (c, e) = flush-same s.write_queue t in
      if-cases (Follows wanted) s.socket
        (λ _.
          subst (λ (u : Consumer). Follows wanted (released (record u { running = started })))
            (sym e)
            (released-Follows (record t { written = c; running = started }) refl i.of_failed refl
              (reading_aims s.op s.running h)))
        (λ n. absurd (ground (arith, h, n, i.of_socket)))

  queue_at-Follows : (r : Running) (w : Writer) → Follows wanted (queue_at r w s)
  unfolding queue_at perform
  queue_at-Follows started w =
      if-cases (Follows wanted) (s.socket && (not (needs_banner w) || is_some s.banner))
        (λ _. same-Follows _ refl refl refl refl refl refl) (λ _. i)
  queue_at-Follows stopped w = same-Follows _ refl refl refl refl refl refl
  queue_at-Follows starting w = same-Follows _ refl refl refl refl refl refl
  queue_at-Follows stopping w = same-Follows _ refl refl refl refl refl refl

  pub step-Follows : (t : Step) → is_smooth t ≡ true → Follows (want_of wanted t) (step t s)
  unfolding step queue_write destroy
  step-Follows starts m = desire-Follows wanted state_started s refl i
  step-Follows stops m = desire-Follows wanted state_stopped s refl i
  step-Follows configures m = cc
  step-Follows (touches w) m = queue_at-Follows s.running w
  step-Follows (stream_ends now) m = cc
  step-Follows immediate m =
      if-cases (Follows wanted) (s.immediates == 0) (λ _. i)
        (λ _.
          ensure_state-Follows wanted (record s { immediates = s.immediates - 1 })
            (same-Follows _ refl refl refl refl refl refl))
  step-Follows recovers m = cc
  step-Follows restart_stops m = cc
  step-Follows Step.limit_stops m = cc
  step-Follows destroys m = same-Follows _ refl refl refl refl refl refl
  step-Follows service_starts m =
      if-cases (Follows wanted) (is_at service s.op)
        (λ h.
          going-Follows _ (is_at-lock service s.op s.lock i.of_lock.of_op h) refl refl refl refl
            refl refl (service_aims s.op s.running h))
        (λ _. i)
  step-Follows connects m =
      if-cases (Follows wanted) (is_at connecting s.op)
        (λ h.
          going-Follows _ (is_at-lock connecting s.op s.lock i.of_lock.of_op h) refl refl refl refl
            refl refl (connecting_aims s.op s.running h))
        (λ _. i)
  step-Follows (banner_arrives b) m =
      if-cases (Follows wanted) (is_at reading_banner s.op) (start_with-Follows b) (λ _. i)
  step-Follows (start_breaks c) m = cc
  step-Follows (failing_ends now) m = cc
  step-Follows stopping_ends m =
      if-cases (Follows wanted) (is_at ending s.op)
        (λ h. released-Follows (finish_stop s) refl i.of_failed refl (ending_aims s.op s.running h))
        (λ _. i)

pub new-Follows : Follows state_stopped new
unfolding new
new-Follows = record {
  of_lock = record { of_op = refl; of_rest = refl };
  of_failed = refl;
  of_failing = refl;
  of_socket = refl;
  of_states = tt;
  of_aim = refl;
}

empty-nil : (queue : List ℕ) → empty queue ≡ true → queue ≡ []
unfolding empty
empty-nil [] h = refl
empty-nil (d ∷ queue) h = cc

pub run-from :
    (steps : List Step) (wanted : ℕ) (s : Consumer)
    → are_smooth steps ≡ true
    → Follows wanted s
    → Follows (wanted_after wanted steps) (run steps s)
unfolding run
run-from [] wanted s m i = i
run-from (t ∷ steps) wanted s m i =
    run-from steps (want_of wanted t) (step t s) (ground arith)
      (step-Follows wanted s i t (ground arith))

pub rest_at :
    (wanted : ℕ) (s : Consumer)
    → Follows wanted s
    → Locks s
    → s.lock ≡ false
    → s.immediates ≡ 0
    → number_of s.running ≡ wanted
rest_at wanted s i l u z =
    let none_left : s.desired ≡ [] =
      empty-nil s.desired (ground (arith, l.of_desired, i.of_failed, u, z)) in
    let idle : s.op ≡ none = no_op s.op (sym u ∙ i.of_lock.of_op) in
    is_rest-number_of s.running (ground (arith, l.is_locked.of_rest, u))
    ∙ (ap (λ (o : Option Op). aim o s.running) (sym idle)
        ∙ (ap (λ (q : List ℕ). or_aim (last q) (aim s.op s.running)) (sym none_left) ∙ i.of_aim))

-- After any requests, touches and ends of operations of which none fails, a consumer with no lock
-- held and no call of `_ensureState` to come is in the state that was asked for last, or stopped
-- if none was.
pub run-follows :
    (steps : List Step)
    → are_smooth steps ≡ true
    → (run steps new).lock ≡ false
    → (run steps new).immediates ≡ 0
    → number_of (run steps new).running ≡ wanted_after state_stopped steps
run-follows steps m =
    rest_at (wanted_after state_stopped steps) (run steps new)
      (run-from steps state_stopped new m new-Follows) (run-Locks steps)
