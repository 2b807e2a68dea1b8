-- ===== src/Device/Touch/Aims.antt =====
-- What a consumer is on the way to.
use mercury_farm.Base.{
  ℕ, ◌≡◌, refl, sym, ap, ◌∙◌, Bool, true, false, not, ◌||◌, Option, none, some, List, [], ◌∷◌,
  arith, ◌==◌, if-cases, All,
}
use mercury_farm.Util.StateQueue.{next, empty, push}
use mercury_farm.Util.StateQueue.Unique.{last, push-last, All-push}
use mercury_farm.Device.Touch.{start_state, stop_state, ensured, ensure_state, desire, is_at}
use mercury_farm.Device.Touch.State.{
  Running, stopped, starting, started, stopping, Op, reading_banner, ending, failing, Consumer,
  state_started, state_stopped,
}
use mercury_farm.Device.Touch.Locks.{is_rest, IsLocked, no_op}

abbrev pub state_of : Running → ℕ
state_of started = state_started
state_of _ = state_stopped

-- the constants of the source
abbrev pub number_of : Running → ℕ
number_of stopped = state_stopped
number_of starting = 2
number_of started = state_started
number_of stopping = 4

pub is_rest-number_of : (r : Running) → is_rest r ≡ true → number_of r ≡ state_of r
is_rest-number_of stopped h = refl
is_rest-number_of started h = refl
is_rest-number_of starting h = cc
is_rest-number_of stopping h = cc

-- what is under way leads to
abbrev pub aim : Option Op → Running → ℕ
aim none r = state_of r
aim (some ending) r = state_stopped
aim (some o) r = state_started

abbrev pub or_aim : Option ℕ → ℕ → ℕ
or_aim none a = a
or_aim (some d) a = d

abbrev is_state : ℕ → Bool
is_state n = n == state_started || n == state_stopped

abbrev pub IsState : ℕ → Type 0
IsState n = is_state n ≡ true

abbrev pub is_failing : Option Op → Bool
is_failing (some (failing c)) = true
is_failing _ = false

pub record Follows (wanted : ℕ) (s : Consumer) : Type 0 where
  pub of_lock : IsLocked s
  pub of_failed : s.failed ≡ false
  pub of_failing : is_failing s.op ≡ false
  pub of_socket : not (is_at reading_banner s.op) || s.socket ≡ true
  pub of_states : All IsState s.desired
  pub of_aim : or_aim (last s.desired) (aim s.op s.running) ≡ wanted

last-cons : (d : ℕ) (rest : List ℕ) (a : ℕ) → or_aim (last (d ∷ rest)) a ≡ or_aim (last rest) d
last-cons d [] a = refl
last-cons d (e ∷ rest) a = last-cons e rest a ∙ sym (last-cons e rest d)

is_state-other : (d : ℕ) → is_state d ≡ true → d == state_started ≡ false → d ≡ state_stopped
is_state-other d i h = ground arith

is_state-first : (d : ℕ) → is_state d ≡ true → d == state_stopped ≡ false → d ≡ state_started
is_state-first d i h = ground arith

module _ (wanted : ℕ) (s : Consumer) (o : s.op ≡ none) (f : s.failed ≡ false) where
  start_state-Follows :
      (queue : List ℕ)
      → s.running ≡ stopped
      → All IsState queue
      → or_aim (last queue) state_stopped ≡ wanted
      → Follows wanted (start_state (record s { desired = queue; lock = true }))
  unfolding start_state next
  start_state-Follows [] r a w = record {
    of_lock = record { of_op = ground (arith, o); of_rest = ground (arith, r) };
    of_failed = f;
    of_failing = ap is_failing o;
    of_socket = ground (arith, o);
    of_states = a;
    of_aim = ground (arith, o, r, w);
  }
  start_state-Follows (d ∷ rest) r a w =
      if-cases (Follows wanted) (d == state_started)
        (λ h. record {
          of_lock = record { of_op = refl; of_rest = refl };
          of_failed = f;
          of_failing = refl;
          of_socket = refl;
          of_states = a.1;
          of_aim = ground (arith, last-cons d rest state_stopped, w, h);
        })
        (λ h.
          let d_is : d ≡ state_stopped = is_state-other d a.0 h in
          record {
            of_lock = record { of_op = ground (arith, o); of_rest = ground (arith, r) };
            of_failed = f;
            of_failing = ap is_failing o;
            of_socket = ground (arith, o);
            of_states = a.1;
            of_aim = ground (arith, last-cons d rest state_stopped, w, d_is, o, r);
          })

  stop_state-Follows :
      (queue : List ℕ)
      → s.running ≡ started
      → All IsState queue
      → or_aim (last queue) state_started ≡ wanted
      → Follows wanted (stop_state (record s { desired = queue; lock = true }))
  unfolding stop_state next
  stop_state-Follows [] r a w = record {
    of_lock = record { of_op = ground (arith, o); of_rest = ground (arith, r) };
    of_failed = f;
    of_failing = ap is_failing o;
    of_socket = ground (arith, o);
    of_states = a;
    of_aim = ground (arith, o, r, w);
  }
  stop_state-Follows (d ∷ rest) r a w =
      if-cases (Follows wanted) (d == state_stopped)
        (λ h. record {
          of_lock = record { of_op = refl; of_rest = refl };
          of_failed = f;
          of_failing = refl;
          of_socket = refl;
          of_states = a.1;
          of_aim = ground (arith, last-cons d rest state_started, w, h);
        })
        (λ h.
          let d_is : d ≡ state_started = is_state-first d a.0 h in
          record {
            of_lock = record { of_op = ground (arith, o); of_rest = ground (arith, r) };
            of_failed = f;
            of_failing = ap is_failing o;
            of_socket = ground (arith, o);
            of_states = a.1;
            of_aim = ground (arith, last-cons d rest state_started, w, d_is, o, r);
          })

  ensured-Follows :
      (r : Running)
      → s.running ≡ r
      → is_rest r ≡ true
      → All IsState s.desired
      → or_aim (last s.desired) (state_of r) ≡ wanted
      → Follows wanted (ensured r (record s { lock = true }))
  unfolding ensured
  ensured-Follows stopped e h a w = start_state-Follows s.desired e a w
  ensured-Follows started e h a w = stop_state-Follows s.desired e a w
  ensured-Follows starting e h a w = cc
  ensured-Follows stopping e h a w = cc

pub ensure_state-Follows :
    (wanted : ℕ) (s : Consumer) → Follows wanted s → Follows wanted (ensure_state s)
unfolding ensure_state
ensure_state-Follows wanted s i =
    if-cases (Follows wanted) (empty s.desired || (s.failed || s.lock)) (λ _. i)
      (λ h.
        let unlocked : s.lock ≡ false = ground arith in
        let idle : s.op ≡ none = no_op s.op (sym unlocked ∙ i.of_lock.of_op) in
        ensured-Follows wanted s idle i.of_failed s.running refl (ground (arith, i.of_lock.of_rest))
          i.of_states
          (ap (λ (o : Option Op). or_aim (last s.desired) (aim o s.running)) (sym idle) ∙ i.of_aim))

pub desire-Follows :
    (wanted state : ℕ) (s : Consumer)
    → IsState state
    → Follows wanted s
    → Follows state (desire state s)
unfolding desire
desire-Follows wanted state s t i =
    ensure_state-Follows state (record s { desired = push state s.desired })
      (record {
        of_lock = record { of_op = i.of_lock.of_op; of_rest = i.of_lock.of_rest };
        of_failed = i.of_failed;
        of_failing = i.of_failing;
        of_socket = i.of_socket;
        of_states = All-push IsState state s.desired t i.of_states;
        of_aim = ap (λ (o : Option ℕ). or_aim o (aim s.op s.running)) (push-last state s.desired);
      })
