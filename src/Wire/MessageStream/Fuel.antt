-- ===== src/Wire/MessageStream/Fuel.antt =====
-- The fuel of the loop of `_transform` in lib/wire/messagestream.js.
use mercury_farm.Base.{
  ℕ, zero, suc, ◌+◌, ◌-◌, ◌*◌, ◌≤◌, ◌<◌, ◌≡◌, refl, ◌⊎◌, inl, inr, Bool-cases, Bool, true, false,
  List, [], ◌∷◌, arith, length, length-drop, if◌then◌else◌,
}
use mercury_farm.Base.Int.{ℤ, pos, negsuc, leb_ℤ}
use mercury_farm.Wire.MessageStream.{
  Delimited, read_length, turns, Turn, stops, reads, emits, turn_of, turn, follow, slice_from,
}

-- Nothing to read, or a body of which not all has come.
abbrev pub Blocked : Delimited → Type 0
Blocked s =
    (s.buffer ≡ []) ⊎ ((s.reading_length ≡ false) × (leb_ℤ s.len (pos (length s.buffer)) ≡ false))

abbrev pub measure : Delimited → ℕ
measure s = 2 * length s.buffer + (if s.reading_length then 0 else 1)

length-slice_from : (z : ℤ) (b : List ℕ) → length (slice_from z b) ≤ length b
length-slice_from (pos n) b = omega (arith, length-drop n b)
length-slice_from (negsuc n) b = omega (arith, length-drop (length b - suc n) b)

-- What one round does to the measure, and when there is none.
Falls : Delimited → Turn → Type 0
Falls s stops = Blocked s
Falls s (reads s') = measure s' < measure s
Falls s (emits m s') = measure s' < measure s

turn_of-Falls :
    (s : Delimited) (b : List ℕ) (r : Bool)
    → s.buffer ≡ b
    → s.reading_length ≡ r
    → Falls s (turn_of b r s)
unfolding turn_of read_length Falls
turn_of-Falls s [] r e f = inl e
turn_of-Falls s (byte ∷ rest) true e f = ground arith
turn_of-Falls s (byte ∷ rest) false e f = elim (Bool-cases (leb_ℤ s.len (pos (length s.buffer)))) [
  | inl whole ↦ rw whole (ground (arith, length-slice_from s.len s.buffer))
  | inr part ↦ rw part (inr (f, part))
]

follow-Blocked :
    (n : ℕ) (s : Delimited) (t : Turn)
    → ((s' : Delimited) → measure s' < n → Blocked (turns n s').0)
    → measure s < suc n
    → Falls s t
    → Blocked (follow (turns n) s t).0
unfolding follow Falls
follow-Blocked n s stops ih h f = f
follow-Blocked n s (reads s') ih h f = ih s' (omega arith)
follow-Blocked n s (emits m s') ih h f = ih s' (omega arith)

-- The fuel is enough: the loop ends by one of its own exits.
pub turns-Blocked : (n : ℕ) (s : Delimited) → measure s < n → Blocked (turns n s).0
unfolding turns turn
turns-Blocked zero s h = absurd (omega arith)
turns-Blocked (suc n) s h =
    follow-Blocked n s (turn s) (turns-Blocked n) h
      (turn_of-Falls s s.buffer s.reading_length refl refl)
