-- ===== src/Util/StateQueue/Unique.antt =====
-- What a push of lib/util/statequeue.js makes of its queue.
use mathlib.Core.Path.{subst}
use mercury_farm.Base.{
  ℕ, ◌≡◌, ◌≢◌, ◌⊎◌, inl, inr, refl, ap, sym, Option, none, some, List, [], ◌∷◌, ◌++◌, arith, ◌==◌,
  if-cases, All, All-append,
}
use mercury_farm.Util.StateQueue.{cut_after, pushed, push}

abbrev pub IsUnique : List ℕ → Type 0
IsUnique [] = Unit
IsUnique (s ∷ queue) = All (λ t. s ≢ t) queue × IsUnique queue

abbrev pub last : List ℕ → Option ℕ
last [] = none
last (s ∷ []) = some s
last (s ∷ t ∷ queue) = last (t ∷ queue)

-- a queue that starts as another one does
abbrev pub Starts : List ℕ → List ℕ → Type 0
Starts xs ys = (zs : List ℕ) × (xs ++ zs ≡ ys)

-- What `cut_after` gives.
Cut : ℕ → List ℕ → Option (List ℕ) → Type 0
Cut state queue none = All (λ t. t ≢ state) queue
Cut state queue (some kept) = (last kept ≡ some state) × Starts kept queue

last-cons :
    (s : ℕ) (kept : List ℕ) (state : ℕ) → last kept ≡ some state → last (s ∷ kept) ≡ some state
last-cons s [] state e = cc
last-cons s (t ∷ kept) state e = e

Cut-later :
    (s state : ℕ) (queue : List ℕ) (o : Option (List ℕ))
    → s ≢ state
    → Cut state queue o
    → Cut state (s ∷ queue) (elim o [ none ↦ none | some kept ↦ some (s ∷ kept) ])
unfolding Cut
Cut-later s state queue none n c = (n, c)
Cut-later s state queue (some kept) n (e, (zs, f)) =
    (last-cons s kept state e, (zs, ap (λ q. s ∷ q) f))

cut_after-Cut : (state : ℕ) (queue : List ℕ) → Cut state queue (cut_after state queue)
unfolding cut_after Cut
cut_after-Cut state [] = tt
cut_after-Cut state (s ∷ queue) =
    if-cases (Cut state (s ∷ queue)) (s == state) (λ h. (ground arith, (queue, refl)))
      (λ h.
        Cut-later s state queue (cut_after state queue) (λ e. ground arith)
          (cut_after-Cut state queue))

All-prefix : (P : ℕ → Type 0) (xs zs : List ℕ) → All P (xs ++ zs) → All P xs
All-prefix P [] zs a = tt
All-prefix P (x ∷ xs) zs a = (a.0, All-prefix P xs zs a.1)

IsUnique-prefix : (xs zs : List ℕ) → IsUnique (xs ++ zs) → IsUnique xs
IsUnique-prefix [] zs u = tt
IsUnique-prefix (x ∷ xs) zs u = (All-prefix (λ t. x ≢ t) xs zs u.0, IsUnique-prefix xs zs u.1)

IsUnique-snoc :
    (queue : List ℕ) (state : ℕ)
    → IsUnique queue
    → All (λ t. t ≢ state) queue
    → IsUnique (queue ++ state ∷ [])
IsUnique-snoc [] state u a = (tt, tt)
IsUnique-snoc (s ∷ queue) state u a =
    (All-append (λ t. s ≢ t) queue (state ∷ []) u.0 (a.0, tt), IsUnique-snoc queue state u.1 a.1)

last-snoc : (queue : List ℕ) (state : ℕ) → last (queue ++ state ∷ []) ≡ some state
last-snoc [] state = refl
last-snoc (s ∷ queue) state = last-cons s (queue ++ state ∷ []) state (last-snoc queue state)

pushed-Unique :
    (state : ℕ) (queue : List ℕ) (o : Option (List ℕ))
    → Cut state queue o
    → IsUnique queue
    → IsUnique (pushed state queue o)
      × (last (pushed state queue o) ≡ some state)
      × (Starts (pushed state queue o) queue ⊎ (pushed state queue o ≡ queue ++ state ∷ []))
unfolding Cut
pushed-Unique state queue none c u =
    (IsUnique-snoc queue state u c, last-snoc queue state, inr refl)
pushed-Unique state queue (some kept) (e, (zs, f)) u =
    (IsUnique-prefix kept zs (subst IsUnique (sym f) u), e, inl (zs, f))

-- On a queue where no state stands twice, a push leaves it so, ends it with the pushed state, and
-- either cuts it there or appends the state.
pub push-Unique :
    (state : ℕ) (queue : List ℕ)
    → IsUnique queue
    → IsUnique (push state queue)
      × (last (push state queue) ≡ some state)
      × (Starts (push state queue) queue ⊎ (push state queue ≡ queue ++ state ∷ []))
unfolding push
push-Unique state queue u =
    pushed-Unique state queue (cut_after state queue) (cut_after-Cut state queue) u

pushed-last :
    (state : ℕ) (queue : List ℕ) (o : Option (List ℕ))
    → Cut state queue o
    → last (pushed state queue o) ≡ some state
unfolding Cut
pushed-last state queue none c = last-snoc queue state
pushed-last state queue (some kept) (e, starts) = e

pub push-last : (state : ℕ) (queue : List ℕ) → last (push state queue) ≡ some state
unfolding push
push-last state queue = pushed-last state queue (cut_after state queue) (cut_after-Cut state queue)

All-pushed :
    (P : ℕ → Type 0) (state : ℕ) (queue : List ℕ) (o : Option (List ℕ))
    → Cut state queue o
    → P state
    → All P queue
    → All P (pushed state queue o)
unfolding Cut
All-pushed P state queue none c p a = All-append P queue (state ∷ []) a (p, tt)
All-pushed P state queue (some kept) (e, (zs, f)) p a =
    All-prefix P kept zs (subst (All P) (sym f) a)

pub All-push :
    (P : ℕ → Type 0) (state : ℕ) (queue : List ℕ) → P state → All P queue → All P (push state queue)
unfolding push
All-push P state queue p a =
    All-pushed P state queue (cut_after state queue) (cut_after-Cut state queue) p a
