-- ===== src/Util/FailCounter/Recent.antt =====
-- The counter against the calls themselves.
use mercury_farm.Base.{
  ℕ, ◌+◌, ◌≤◌, ◌<◌, ◌≡◌, refl, sym, ap, ◌∙◌, Bool, List, [], ◌∷◌, ◌++◌, arith, length, ltb, leb,
  if◌then◌else◌, if-cases, All, All-append,
}
use mercury_farm.Util.FailCounter.{FailCounter, new, expire, inc, run}

-- the calls that are less than `time` before now
abbrev pub recent : ℕ → ℕ → List ℕ → List ℕ
recent now time [] = []
recent now time (v ∷ vs) = if leb (v + time) now then recent now time vs else v ∷ recent now time vs

-- times that do not go back
abbrev pub IsAscending : List ℕ → Type 0
IsAscending [] = Unit
IsAscending (v ∷ vs) = All (λ w. v ≤ w) vs × IsAscending vs

-- whether more than `threshold` calls are recent, at each of some calls that come after others
abbrev pub exceeding : ℕ → ℕ → List ℕ → List ℕ → List Bool
exceeding threshold time before [] = []
exceeding threshold time before (now ∷ times) =
    ltb threshold (length (recent now time (before ++ now ∷ [])))
    ∷ exceeding threshold time (before ++ now ∷ []) times

recent_late :
    (now time v : ℕ) (vs : List ℕ) → All (λ w. v ≤ w) vs → now < v + time → recent now time vs ≡ vs
recent_late now time v [] a h = refl
recent_late now time v (w ∷ vs) a h = ground (arith, a.0, recent_late now time v vs a.1 h)

expire-recent :
    (now time : ℕ) (vs : List ℕ) → IsAscending vs → expire now time vs ≡ recent now time vs
unfolding expire
expire-recent now time [] s = refl
expire-recent now time (v ∷ vs) s =
    ground (arith, expire-recent now time vs s.1, recent_late now time v vs s.0)

recent-append :
    (now time : ℕ) (vs ws : List ℕ)
    → recent now time (vs ++ ws) ≡ recent now time vs ++ recent now time ws
recent-append now time [] ws = refl
recent-append now time (v ∷ vs) ws = ground (arith, recent-append now time vs ws)

recent-recent :
    (t now time : ℕ) (vs : List ℕ)
    → t ≤ now
    → recent now time (recent t time vs) ≡ recent now time vs
recent-recent t now time [] h = refl
recent-recent t now time (v ∷ vs) h = ground (arith, recent-recent t now time vs h)

All-recent : (P : ℕ → Type 0) (now time : ℕ) (vs : List ℕ) → All P vs → All P (recent now time vs)
All-recent P now time [] a = tt
All-recent P now time (v ∷ vs) a =
    if-cases (All P) (leb (v + time) now) (λ _. All-recent P now time vs a.1)
      (λ _. (a.0, All-recent P now time vs a.1))

recent-IsAscending :
    (now time : ℕ) (vs : List ℕ) → IsAscending vs → IsAscending (recent now time vs)
recent-IsAscending now time [] s = tt
recent-IsAscending now time (v ∷ vs) s =
    if-cases IsAscending (leb (v + time) now) (λ _. recent-IsAscending now time vs s.1)
      (λ _. (All-recent (λ w. v ≤ w) now time vs s.0, recent-IsAscending now time vs s.1))

-- after a call at `t`, and all calls so far
record Tracks (c : FailCounter) (t : ℕ) (before : List ℕ) : Type 0 where
  kept : c.values ≡ recent t c.time before
  ascending : IsAscending before
  positive : 0 < c.time

IsAscending-snoc :
    (vs : List ℕ) (now : ℕ) → IsAscending vs → All (λ v. v ≤ now) vs → IsAscending (vs ++ now ∷ [])
IsAscending-snoc [] now s a = (tt, tt)
IsAscending-snoc (v ∷ vs) now s a =
    (All-append (λ w. v ≤ w) vs (now ∷ []) s.0 (a.0, tt), IsAscending-snoc vs now s.1 a.1)

now-recent : (now time : ℕ) → 0 < time → recent now time (now ∷ []) ≡ now ∷ []
now-recent now time h = ground arith

inc-values :
    (c : FailCounter) (t now : ℕ) (before : List ℕ)
    → Tracks c t before
    → t ≤ now
    → expire now c.time c.values ++ now ∷ [] ≡ recent now c.time (before ++ now ∷ [])
inc-values c t now before k h =
    let kept : expire now c.time c.values ≡ recent now c.time before =
      ap (expire now c.time) k.kept
      ∙ expire-recent now c.time (recent t c.time before)
          (recent-IsAscending t c.time before k.ascending)
      ∙ recent-recent t now c.time before h in
    ap (λ vs. vs ++ now ∷ []) kept
    ∙ ap (λ vs. recent now c.time before ++ vs) (sym (now-recent now c.time k.positive))
    ∙ sym (recent-append now c.time before (now ∷ []))

All-later :
    (t now : ℕ) (before : List ℕ) → t ≤ now → All (λ v. v ≤ t) before → All (λ v. v ≤ now) before
All-later t now [] h a = tt
All-later t now (v ∷ vs) h a = (omega arith, All-later t now vs h a.1)

run-exceeding :
    (times : List ℕ) (c : FailCounter) (t : ℕ) (before : List ℕ)
    → Tracks c t before
    → All (λ v. v ≤ t) before
    → IsAscending (t ∷ times)
    → (run times c).1 ≡ exceeding c.threshold c.time before times
unfolding run inc
run-exceeding [] c t before k a s = refl
run-exceeding (now ∷ times) c t before k a s =
    let values : List ℕ = expire now c.time c.values ++ now ∷ [] in
    let kept : values ≡ recent now c.time (before ++ now ∷ []) =
      inc-values c t now before k s.0.0 in
    let old : All (λ v. v ≤ now) before = All-later t now before s.0.0 a in
    rw
      (run-exceeding times (record c { values = values }) now (before ++ now ∷ [])
        (record {
          kept = kept;
          ascending = IsAscending-snoc before now k.ascending old;
          positive = k.positive;
        })
        (All-append (λ v. v ≤ now) before (now ∷ []) old (omega arith, tt)) s.1)
      (ap
        (λ vs.
          ltb c.threshold (length vs) ∷ exceeding c.threshold c.time (before ++ now ∷ []) times)
        kept)

All-zero : (times : List ℕ) → All (λ w. 0 ≤ w) times
All-zero [] = tt
All-zero (t ∷ times) = (omega arith, All-zero times)

-- A new counter, over a time that is not 0, called at times that do not go back, emits at exactly
-- the calls where more calls than the threshold, this one included, are less than that time old.
pub counts_recent :
    (threshold time : ℕ) (times : List ℕ)
    → 0 < time
    → IsAscending times
    → (run times (new threshold time)).1 ≡ exceeding threshold time [] times
unfolding new
counts_recent threshold time times h s =
    run-exceeding times (new threshold time) 0 []
      (record { kept = refl; ascending = tt; positive = h }) tt (All-zero times, s)
