-- ===== src/Groups/Overlap.antt =====
-- `checkDatesOverlaps` of lib/db/models/group/model.js.
use mathlib.Core.Path.{sym, subst}
use mathlib.Core.List.{Memᴰ}
use mercury_farm.Base.{
  ℕ, ◌≤◌, ◌<◌, max, Bool-cases, ◌≡◌, ◌⊎◌, inl, inr, Bool, true, false, ◌&&◌, ◌||◌, Option, none,
  some, List, [], ◌∷◌, arith, ltb, if◌then◌else◌, All,
}
use mercury_farm.Groups.Types.{Window, Group}

-- the test of the two inner loops
abbrev meets : Window → Window → Bool
meets t c = ltb t.start c.stop && ltb c.start t.stop

abbrev meets_any : Window → List Window → Bool
meets_any t [] = false
meets_any t (c ∷ cs) = meets t c || meets_any t cs

abbrev any_meets : List Window → List Window → Bool
any_meets [] cs = false
any_meets (t ∷ ts) cs = meets_any t cs || any_meets ts cs

-- the first group with a window that meets one of the target's
unfoldable pub check_dates_overlaps : Group → List Group → Option Group
check_dates_overlaps g [] = none
check_dates_overlaps g (h ∷ hs) =
    let rest = check_dates_overlaps g hs in if any_meets g.dates h.dates then some h else rest

-- A moment lies in a window from its start to just before its stop.
abbrev pub During : ℕ → Window → Type 0
During t w = (w.start ≤ t) × (t < w.stop)

-- A moment of one of some windows.
abbrev pub Covered : ℕ → List Window → Type 0
Covered t [] = ⊥
Covered t (w ∷ ws) = During t w ⊎ Covered t ws

meets-During : (t : ℕ) (v w : Window) → meets v w ≡ false → During t v → During t w → ⊥
meets-During t v w h a b = ground arith

meets_any-none :
    (t : ℕ) (v : Window) (ws : List Window) → meets_any v ws ≡ false → During t v → Covered t ws → ⊥
meets_any-none t v [] h a c = c
meets_any-none t v (w ∷ ws) h a (inl b) = ground (arith, meets-During t v w)
meets_any-none t v (w ∷ ws) h a (inr c) = meets_any-none t v ws (ground arith) a c

any_meets-none :
    (t : ℕ) (vs ws : List Window) → any_meets vs ws ≡ false → Covered t vs → Covered t ws → ⊥
any_meets-none t [] ws h a c = a
any_meets-none t (v ∷ vs) ws h (inl a) c = meets_any-none t v ws (ground arith) a c
any_meets-none t (v ∷ vs) ws h (inr a) c = any_meets-none t vs ws (ground arith) a c

-- If no group is returned, then at no moment is the target booked together with one of the groups.
pub no_overlap :
    (g : Group) (groups : List Group)
    → check_dates_overlaps g groups ≡ none
    → All (λ h. (t : ℕ) → Covered t g.dates → Covered t h.dates → ⊥) groups
unfolding check_dates_overlaps
no_overlap g [] e = tt
no_overlap g (h ∷ hs) e = elim (Bool-cases (any_meets g.dates h.dates)) [
  | inl hit ↦ absurd (ground arith)
  | inr miss ↦ (λ t. any_meets-none t g.dates h.dates miss, no_overlap g hs (ground arith))
]

abbrev pub IsWindow : Window → Type 0
IsWindow w = w.start < w.stop

meets_shared :
    (v w : Window)
    → IsWindow v
    → IsWindow w
    → meets v w ≡ true
    → During (max v.start w.start) v × During (max v.start w.start) w
meets_shared v w a b h = ((omega arith, ground arith), (omega arith, ground arith))

meets_any-shared :
    (v : Window) (ws : List Window)
    → IsWindow v
    → All IsWindow ws
    → meets_any v ws ≡ true
    → (t : ℕ) × During t v × Covered t ws
meets_any-shared v [] a b h = cc
meets_any-shared v (w ∷ ws) a b h = elim (Bool-cases (meets v w)) [
  | inl hit ↦ (let (x, y) = meets_shared v w a b.0 hit in (max v.start w.start, x, inl y))
  | inr miss ↦ (let (t, x, y) = meets_any-shared v ws a b.1 (ground arith) in (t, x, inr y))
]

any_meets-shared :
    (vs ws : List Window)
    → All IsWindow vs
    → All IsWindow ws
    → any_meets vs ws ≡ true
    → (t : ℕ) × Covered t vs × Covered t ws
any_meets-shared [] ws a b h = cc
any_meets-shared (v ∷ vs) ws a b h = elim (Bool-cases (meets_any v ws)) [
  | inl hit ↦ (let (t, x, y) = meets_any-shared v ws a.0 b hit in (t, inl x, y))
  | inr miss ↦ (let (t, x, y) = any_meets-shared vs ws a.1 b (ground arith) in (t, inr x, y))
]

-- A group that is returned is one of those given, and shares a moment with the target, if every
-- window stops after it starts.
pub overlap_shared :
    (g h : Group) (groups : List Group)
    → All IsWindow g.dates
    → All (λ k. All IsWindow k.dates) groups
    → check_dates_overlaps g groups ≡ some h
    → Memᴰ h groups × ((t : ℕ) × Covered t g.dates × Covered t h.dates)
unfolding check_dates_overlaps
overlap_shared g h [] a b e = cc
overlap_shared g h (k ∷ ks) a b e = elim (Bool-cases (any_meets g.dates k.dates)) [
  | inl hit ↦
      let same : k ≡ h = ground arith in
      (
        Memᴰ.head (sym same),
        subst (λ (x : Group). (t : ℕ) × Covered t g.dates × Covered t x.dates) same
            (any_meets-shared g.dates k.dates a b.0 hit),
      )
  | inr miss ↦ (let (m, x) = overlap_shared g h ks a b.1 (ground arith) in (Memᴰ.tail m, x))
]
