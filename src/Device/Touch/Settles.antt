-- ===== src/Device/Touch/Settles.antt =====
-- How a consumer comes to rest when nothing fails.
use mathlib.Core.Path.{subst}
use mercury_farm.Base.{
  ℕ, suc, zero, ◌≤◌, ◌<◌, ◌⊎◌, ◌≡◌, refl, sym, ap, ◌∙◌, true, false, ◌||◌, Option, none, some, List,
  [], ◌∷◌, arith, if◌then◌else◌, if-cases, is_some, inl, inr, length,
}
use mercury_farm.Util.StateQueue.{empty}
use mercury_farm.Device.Touch.{
  Step, immediate, service_starts, connects, banner_arrives, stopping_ends, is_at, is_starting,
  step, run,
}
use mercury_farm.Device.Touch.Locks.{Locks, steps-Locks, run-Locks}
use mercury_farm.Device.Touch.Aims.{Follows, is_failing, number_of}
use mercury_farm.Device.Touch.Follows.{
  step-Follows, run-from, new-Follows, rest_at, wanted_after, are_smooth,
}
use mercury_farm.Device.Touch.State.{
  state_stopped, Banner, Op, service, connecting, reading_banner, ending, failing, Consumer, new,
}
use mercury_farm.Device.Touch.Work.{
  busy, work, round, service-work, connect-work, banner-work, banner-done, stopping-done,
  stopping-work, immediate-work,
}

-- how far an operation is
service-next :
    (s : Consumer)
    → is_starting s.op ≡ true
    → is_at connecting (step service_starts s).op || is_at reading_banner (step service_starts s).op
      ≡ true
unfolding step
service-next s h =
    if-cases (λ (t : Consumer). is_at connecting t.op || is_at reading_banner t.op ≡ true)
      (is_at service s.op) (λ _. refl) (λ n. ground (arith, h, n))

connect-next :
    (s : Consumer)
    → is_at connecting s.op || is_at reading_banner s.op ≡ true
    → is_at reading_banner (step connects s).op ≡ true
unfolding step
connect-next s h =
    if-cases (λ (t : Consumer). is_at reading_banner t.op ≡ true) (is_at connecting s.op)
      (λ _. refl) (λ n. ground (arith, h, n))

service-ending :
    (s : Consumer) → is_at ending s.op ≡ true → is_at ending (step service_starts s).op ≡ true
unfolding step
service-ending s h =
    if-cases (λ (t : Consumer). is_at ending t.op ≡ true) (is_at service s.op)
      (λ n. ground (arith, h, n)) (λ _. h)

connect-ending :
    (s : Consumer) → is_at ending s.op ≡ true → is_at ending (step connects s).op ≡ true
unfolding step
connect-ending s h =
    if-cases (λ (t : Consumer). is_at ending t.op ≡ true) (is_at connecting s.op)
      (λ n. ground (arith, h, n)) (λ _. h)

banner-ending :
    (b : Banner) (s : Consumer)
    → is_at ending s.op ≡ true
    → is_at ending (step (banner_arrives b) s).op ≡ true
unfolding step
banner-ending b s h =
    if-cases (λ (t : Consumer). is_at ending t.op ≡ true) (is_at reading_banner s.op)
      (λ n. absurd (ground (arith, h, n))) (λ _. h)

idle-stays : (o : Op) (s t : Consumer) → s.op ≡ none → (if is_at o s.op then t else s) ≡ s
idle-stays o s t e = subst (λ (op : Option Op). (if is_at o op then t else s) ≡ s) (sym e) refl

idle-round : (b : Banner) (s : Consumer) → s.op ≡ none → run (round b) s ≡ step immediate s
unfolding run step
idle-round b s e =
    ap
      (λ (t : Consumer).
        step immediate (step stopping_ends (step (banner_arrives b) (step connects t))))
      (idle-stays service s _ e)
    ∙ (ap (λ (t : Consumer). step immediate (step stopping_ends (step (banner_arrives b) t)))
          (idle-stays connecting s _ e)
        ∙ (ap (λ (t : Consumer). step immediate (step stopping_ends t))
              (idle-stays reading_banner s _ e)
            ∙ ap (step immediate) (idle-stays ending s _ e)))

module _ (wanted : ℕ) (b : Banner) (s : Consumer) (i : Follows wanted s) where
  round-work :
      (work (run (round b) s) ≤ work s)
      × (is_starting s.op ≡ true → work (run (round b) s) < work s)
      × (is_at ending s.op ≡ true → work (run (round b) s) < work s)
  unfolding run
  round-work =
      let s1 = step service_starts s in
      let i1 = step-Follows wanted s i service_starts refl in
      let s2 = step connects s1 in
      let i2 = step-Follows wanted s1 i1 connects refl in
      let s3 = step (banner_arrives b) s2 in
      let i3 = step-Follows wanted s2 i2 (banner_arrives b) refl in
      let s4 = step stopping_ends s3 in
      let i4 = step-Follows wanted s3 i3 stopping_ends refl in
      let w1 = service-work wanted s i in
      let w2 = connect-work wanted s1 i1 in
      let w3 = banner-work wanted s2 i2 b in
      let w4 = stopping-work wanted s3 i3 in
      let w5 = (immediate-work wanted s4 i4).0 in
      (
        omega (arith, w1, w2, w3, w4, w5),
        (λ h.
            let less = banner-done wanted s2 i2 b (connect-next s1 (service-next s h)) in
            omega (arith, w1, w2, less, w4, w5)),
        (λ h.
            let less =
              stopping-done wanted s3 i3
                (banner-ending b s2 (connect-ending s1 (service-ending s h))) in
            omega (arith, w1, w2, w3, less, w5)),
      )

op_cases :
    (op : Option Op)
    → is_failing op ≡ false
    → (op ≡ none) ⊎ ((is_starting op ≡ true) ⊎ (is_at ending op ≡ true))
op_cases none f = inl refl
op_cases (some service) f = inr (inl refl)
op_cases (some connecting) f = inr (inl refl)
op_cases (some reading_banner) f = inr (inl refl)
op_cases (some ending) f = inr (inr refl)
op_cases (some (failing c)) f = cc

empty-length : (queue : List ℕ) → empty queue ≡ true → length queue ≡ 0
unfolding empty
empty-length [] h = refl
empty-length (d ∷ queue) h = cc

round-less :
    (wanted : ℕ) (b : Banner) (s : Consumer)
    → Follows wanted s
    → Locks s
    → (work s ≡ 0) ⊎ (work (run (round b) s) < work s)
round-less wanted b s i l = elim (op_cases s.op i.of_failing) [
  | inl none_left ↦ elim ((immediate-work wanted s i).1) [
    | inl z ↦
        let free : s.lock ≡ false = i.of_lock.of_op ∙ ap is_some none_left in
        let done = empty-length s.desired (ground (arith, l.of_desired, i.of_failed, free, z)) in
        inl (omega (arith, done, z, ap busy none_left))
    | inr less ↦
        inr (subst (λ (t : Consumer). work t < work s) (sym (idle-round b s none_left)) less)
  ]
  | inr (inl h) ↦ inr ((round-work wanted b s i).1 h)
  | inr (inr h) ↦ inr ((round-work wanted b s i).2 h)
]

-- so many rounds
abbrev pub rounds : ℕ → Banner → List Step
rounds zero b = []
rounds (suc n) b =
    service_starts ∷ connects ∷ banner_arrives b ∷ stopping_ends ∷ immediate ∷ rounds n b

record IsDone (wanted : ℕ) (s : Consumer) : Type 0 where
  of_work : work s ≡ 0
  of_follows : Follows wanted s
  of_locks : Locks s

rounds-IsDone :
    (n wanted : ℕ) (b : Banner) (s : Consumer)
    → Follows wanted s
    → Locks s
    → work s ≤ n
    → IsDone wanted (run (rounds n b) s)
unfolding run
rounds-IsDone zero wanted b s i l w = record { of_work = omega arith; of_follows = i; of_locks = l }
rounds-IsDone (suc n) wanted b s i l w =
    let next_work : work (run (round b) s) ≤ n = elim (round-less wanted b s i l) [
      | inl z ↦ omega (arith, (round-work wanted b s i).0, z)
      | inr less ↦ omega (arith, less, w)
    ] in
    rounds-IsDone n wanted b (run (round b) s) (run-from (round b) wanted s refl i)
      (steps-Locks (round b) s l) next_work

idle-op : (op : Option Op) → busy op ≡ 0 → op ≡ none
idle-op none h = refl
idle-op (some o) h = absurd (omega (arith, h))

-- after as many rounds as there is work left
abbrev pub settled : List Step → Banner → Consumer
settled steps b = run (rounds (work (run steps new)) b) (run steps new)

-- After any requests, touches and ends of operations of which none fails, as many rounds as there
-- is work left, each with what an operation awaits and a call of `_ensureState`, bring the
-- consumer to rest: no lock is held, no call is to come, and it is in the state that was asked for
-- last, or stopped if none was.
pub rounds-settle :
    (steps : List Step) (b : Banner)
    → are_smooth steps ≡ true
    → ((settled steps b).lock ≡ false)
      × ((settled steps b).immediates ≡ 0)
      × (number_of (settled steps b).running ≡ wanted_after state_stopped steps)
rounds-settle steps b m =
    let wanted = wanted_after state_stopped steps in
    let start = run steps new in
    let end = run (rounds (work start) b) start in
    let d =
      rounds-IsDone (work start) wanted b start (run-from steps state_stopped new m new-Follows)
        (run-Locks steps) (omega arith) in
    let free : end.lock ≡ false =
      d.of_follows.of_lock.of_op ∙ ap is_some (idle-op end.op (omega (arith, d.of_work))) in
    let none_due : end.immediates ≡ 0 = omega (arith, d.of_work) in
    (free, none_due, rest_at wanted end d.of_follows d.of_locks free none_due)
