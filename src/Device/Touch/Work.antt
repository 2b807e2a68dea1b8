-- ===== src/Device/Touch/Work.antt =====
-- What is still to be done, and the steps that do it.
use mathlib.Core.Path.{subst}
use mercury_farm.Base.{
  ℕ, ◌+◌, ◌-◌, ◌≤◌, ◌<◌, ◌⊎◌, ◌≡◌, refl, sym, ◌∙◌, true, false, ◌||◌, Option, none, some, List, [],
  ◌∷◌, arith, ◌==◌, if-cases, inl, inr, length,
}
use mercury_farm.Util.StateQueue.{next, empty}
use mercury_farm.Device.Touch.{
  start_state, stop_state, ensured, ensure_state, finish_stop, released, start_with, Step,
  immediate, service_starts, connects, banner_arrives, stopping_ends, is_at, step,
}
use mercury_farm.Device.Touch.Locks.{is_rest, IsLocked, no_op}
use mercury_farm.Device.Touch.Aims.{Follows}
use mercury_farm.Device.Touch.Follows.{flush-same}
use mercury_farm.Device.Touch.State.{
  Running, stopped, starting, started, stopping, state_stopped, state_started, Banner, Op, service,
  connecting, reading_banner, ending, Consumer, process_write_queue,
}

abbrev pub busy : Option Op → ℕ
busy none = 0
busy (some o) = 1

-- what is still to be done
abbrev pub work : Consumer → ℕ
work s = length s.desired + busy s.op + s.immediates

start_state-work :
    (s : Consumer) (queue : List ℕ)
    → s.op ≡ none
    → empty queue ≡ false
    → work (start_state (record s { desired = queue; lock = true })) ≤ length queue + s.immediates
unfolding start_state next empty
start_state-work s [] o h = cc
start_state-work s (d ∷ rest) o h =
    if-cases (λ (t : Consumer). work t ≤ length (d ∷ rest) + s.immediates) (d == state_started)
      (λ _. omega arith) (λ _. ground (arith, o))

stop_state-work :
    (s : Consumer) (queue : List ℕ)
    → s.op ≡ none
    → empty queue ≡ false
    → work (stop_state (record s { desired = queue; lock = true })) ≤ length queue + s.immediates
unfolding stop_state next empty
stop_state-work s [] o h = cc
stop_state-work s (d ∷ rest) o h =
    if-cases (λ (t : Consumer). work t ≤ length (d ∷ rest) + s.immediates) (d == state_stopped)
      (λ _. omega arith) (λ _. ground (arith, o))

ensured-work :
    (r : Running) (s : Consumer)
    → s.op ≡ none
    → empty s.desired ≡ false
    → work (ensured r (record s { lock = true })) ≤ length s.desired + s.immediates
unfolding ensured
ensured-work stopped s o h = start_state-work s s.desired o h
ensured-work started s o h = stop_state-work s s.desired o h
ensured-work starting s o h = ground (arith, o)
ensured-work stopping s o h = ground (arith, o)

ensure_state-work : (s : Consumer) → IsLocked s → work (ensure_state s) ≤ work s
unfolding ensure_state
ensure_state-work s i =
    if-cases (λ (t : Consumer). work t ≤ work s) (empty s.desired || (s.failed || s.lock))
      (λ _. omega arith)
      (λ h.
        let unlocked : s.lock ≡ false = ground arith in
        omega
          (arith, ensured-work s.running s (no_op s.op (sym unlocked ∙ i.of_op)) (ground arith)))

released-work :
    (s : Consumer) → is_rest s.running ≡ true → work (released s) ≤ length s.desired + s.immediates
unfolding released
released-work s r = omega (
  arith,
  ensure_state-work (record s { lock = false; op = none }) (record { of_op = refl; of_rest = r }),
)

busy-at : (o : Op) (op : Option Op) → is_at o op ≡ true → busy op ≡ 1
busy-at o none h = cc
busy-at o (some p) h = refl

start_with-work :
    (b : Banner) (s : Consumer)
    → s.socket ≡ true
    → is_at reading_banner s.op ≡ true
    → work (start_with b s) < work s
unfolding start_with process_write_queue
start_with-work b s k h =
    let t : Consumer = record s { banner = some b; write_queue = [] } in
    let (c, e) = flush-same s.write_queue t in
    let less = released-work (record t { written = c; running = started }) refl in
    let one = busy-at reading_banner s.op h in
    if-cases (λ (u : Consumer). work u < work s) s.socket
      (λ _.
        subst (λ (u : Consumer). work (released (record u { running = started })) < work s) (sym e)
          (omega (arith, less, one)))
      (λ n. absurd (ground (arith, n, k)))

-- one step of each kind that an operation awaits, and one call of `_ensureState`
abbrev pub round : Banner → List Step
round b = service_starts ∷ connects ∷ banner_arrives b ∷ stopping_ends ∷ immediate ∷ []

module _ (wanted : ℕ) (s : Consumer) (i : Follows wanted s) where
  banner-less : (b : Banner) → is_at reading_banner s.op ≡ true → work (start_with b s) < work s
  banner-less b h = start_with-work b s (ground (arith, i.of_socket, h)) h

  pub service-work : work (step service_starts s) ≤ work s
  unfolding step
  service-work =
      if-cases (λ (t : Consumer). work t ≤ work s) (is_at service s.op)
        (λ h. omega (arith, busy-at service s.op h)) (λ _. omega arith)

  pub connect-work : work (step connects s) ≤ work s
  unfolding step
  connect-work =
      if-cases (λ (t : Consumer). work t ≤ work s) (is_at connecting s.op)
        (λ h. omega (arith, busy-at connecting s.op h)) (λ _. omega arith)

  pub banner-work : (b : Banner) → work (step (banner_arrives b) s) ≤ work s
  unfolding step
  banner-work b =
      if-cases (λ (t : Consumer). work t ≤ work s) (is_at reading_banner s.op)
        (λ h. omega (arith, banner-less b h)) (λ _. omega arith)

  pub banner-done :
      (b : Banner) → is_at reading_banner s.op ≡ true → work (step (banner_arrives b) s) < work s
  unfolding step
  banner-done b h =
      if-cases (λ (t : Consumer). work t < work s) (is_at reading_banner s.op)
        (λ k. banner-less b k) (λ n. cc)

  pub stopping-done : is_at ending s.op ≡ true → work (step stopping_ends s) < work s
  unfolding step
  stopping-done h =
      if-cases (λ (t : Consumer). work t < work s) (is_at ending s.op)
        (λ k. omega (arith, released-work (finish_stop s) refl, busy-at ending s.op k)) (λ n. cc)

  pub stopping-work : work (step stopping_ends s) ≤ work s
  unfolding step
  stopping-work =
      if-cases (λ (t : Consumer). work t ≤ work s) (is_at ending s.op)
        (λ h. omega (arith, released-work (finish_stop s) refl, busy-at ending s.op h))
        (λ _. omega arith)

  pub immediate-work :
      (work (step immediate s) ≤ work s) × (s.immediates ≡ 0 ⊎ (work (step immediate s) < work s))
  unfolding step
  immediate-work =
      if-cases (λ (t : Consumer). (work t ≤ work s) × (s.immediates ≡ 0 ⊎ (work t < work s)))
        (s.immediates == 0) (λ h. (omega arith, inl (ground arith)))
        (λ h.
          let less =
            ensure_state-work (record s { immediates = s.immediates - 1 })
              (record { of_op = i.of_lock.of_op; of_rest = i.of_lock.of_rest }) in
          let more : 0 < s.immediates = ground arith in
          (omega (arith, less, more), inr (omega (arith, less, more))))
