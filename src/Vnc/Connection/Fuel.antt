-- ===== src/Vnc/Connection/Fuel.antt =====
-- The fuel of the inner loop of `_unguardedRead` in connection.js.
use mathlib.Core.Path.{subst}
use mercury_farm.Base.{
  ℕ, zero, suc, ◌+◌, ◌-◌, ◌*◌, ◌≤◌, ◌<◌, ◌≡◌, refl, false, Option, none, some, List, arith, ◌==◌,
  ltb, length, length-drop, get_or, ap, ltb→lt, if-cases,
}
use mercury_farm.Vnc.Connection.Types.{
  State, need_client_version, need_set_encodings_value, need_client_cut_text_value, Vnc, consume,
  Security, Version, need_client_security, need_client_vnc_auth, need_client_message,
}
use mercury_farm.Vnc.Connection.Messages.{parse_version, parse_security, by_type}
use mercury_farm.Vnc.Connection.Machine.{
  Round, waits, goes_on, returns, needs, on_version, on_method, on_security, on_message, on_chunk,
  on_consumed, round, follow, rounds, buffered, full_rounds,
}

-- Each round takes a byte off the buffer, but for a value of length zero, which ends its state.
abbrev is_value : State → ℕ
is_value need_set_encodings_value = 1
is_value need_client_cut_text_value = 1
is_value _ = 0

abbrev measure : Vnc → ℕ
measure s = 2 * buffered s + is_value s.state

-- What a round leaves, with `s` the state behind `_consume`.
abbrev Lowers : Vnc → ℕ → Round → Type 0
Lowers s k waits = Unit
Lowers s k (goes_on s') = (s'.buffer ≡ s.buffer) × (is_value s'.state ≤ k)
Lowers s k (returns s') = Unit

on_version-Lowers : (s : Vnc) (v : Option Version) → Lowers s 1 (on_version s v)
unfolding on_version
on_version-Lowers s none = tt
on_version-Lowers s (some v) = (refl, omega arith)

on_security-Lowers : (s : Vnc) (t : Option ℕ) → Lowers s 1 (on_security s t)
unfolding on_security
on_security-Lowers s none = tt
on_security-Lowers s (some t) = on_method-Lowers (by_type t s.options.security)
  where
    on_method-Lowers :
        (m : Option Security) → Lowers s 1 (on_method (record s { client_security = some t }) t m)
    on_method-Lowers none = tt
    on_method-Lowers (some m) = if-cases (Lowers s 1) (t == 1) (λ _. tt) (λ _. (refl, omega arith))

on_message-Lowers : (s : Vnc) (t : ℕ) → Lowers s 1 (on_message s t)
unfolding on_message
on_message-Lowers s t =
    if-cases (Lowers s 1) (t == 0) (λ _. (refl, omega arith))
      λ _.
        if-cases (Lowers s 1) (t == 2) (λ _. (refl, omega arith))
          λ _.
            if-cases (Lowers s 1) (t == 3) (λ _. (refl, omega arith))
              λ _.
                if-cases (Lowers s 1) (t == 4) (λ _. (refl, omega arith))
                  λ _.
                    if-cases (Lowers s 1) (t == 5) (λ _. (refl, omega arith))
                      λ _. if-cases (Lowers s 1) (t == 6) (λ _. (refl, omega arith)) λ _. tt

on_chunk-Lowers : (s : Vnc) (st : State) (c : List ℕ) → Lowers s (1 - is_value st) (on_chunk s st c)
unfolding on_chunk
on_chunk-Lowers s need_client_version c = on_version-Lowers s (parse_version c)
on_chunk-Lowers s need_client_security c = on_security-Lowers s (parse_security c)
on_chunk-Lowers s need_client_vnc_auth c = tt
on_chunk-Lowers s need_client_message c = on_message-Lowers s (get_or c 0 0)
on_chunk-Lowers s _ c = (refl, omega arith)

abbrev bytes : Option (List ℕ) → ℕ
bytes none = 0
bytes (some b) = length b

needs-pos : (s : Vnc) (st : State) → 1 ≤ needs s st + is_value st
unfolding needs
needs-pos s need_client_version = omega arith
needs-pos s _ = omega arith

-- A round that goes on brings the measure down.
Falls : Vnc → Round → Type 0
Falls s waits = round s ≡ waits
Falls s (goes_on s') = measure s' < measure s
Falls s (returns s') = Unit

Lowers-Falls :
    (s s0 : Vnc) (r : Round)
    → Lowers s0 (1 - is_value s.state) r
    → round s ≡ r
    → 2 * bytes s0.buffer + (1 - is_value s.state) < measure s
    → Falls s r
unfolding Falls
Lowers-Falls s s0 waits l e h = e
Lowers-Falls s s0 (goes_on s') (same, v) e h = rw same (omega arith)
Lowers-Falls s s0 (returns s') l e h = tt

is_value_le : (st : State) → is_value st ≤ 1
is_value_le need_client_version = omega arith
is_value_le _ = omega arith

abbrev Fewer : ℕ → Option (List ℕ) → Option (List ℕ × Option (List ℕ)) → Type 0
Fewer n b none = Unit
Fewer n b (some (c, rest)) = bytes rest + n ≤ bytes b

consume-Fewer : (n : ℕ) (b : Option (List ℕ)) → Fewer n b (consume n b)
unfolding consume
consume-Fewer n none = tt
consume-Fewer n (some b) =
    if-cases (Fewer n (some b)) (ltb n (length b))
      (λ h. omega (arith, length-drop n b, ltb→lt n (length b) h))
      (λ _. if-cases (Fewer n (some b)) (n == length b) (λ h. ground arith) (λ _. tt))

round-Falls : (s : Vnc) → Falls s (round s)
unfolding round
round-Falls s = go (consume (needs s s.state) s.buffer) refl
  where
    go :
        (taken : Option (List ℕ × Option (List ℕ)))
        → consume (needs s s.state) s.buffer ≡ taken
        → Falls s (on_consumed s taken)
    go none e = unfold Falls in ap (on_consumed s) e
    go (some (c, rest)) e =
        Lowers-Falls s (record s { buffer = rest }) (on_consumed s (some (c, rest)))
          (on_chunk-Lowers (record s { buffer = rest }) s.state c) (ap (on_consumed s) e)
          (omega (
            arith,
            subst (Fewer (needs s s.state) s.buffer) e (consume-Fewer (needs s s.state) s.buffer),
            needs-pos s s.state,
            is_value_le s.state,
          ))

follow-ends :
    (n : ℕ) (s : Vnc) (r : Round)
    → ((s' : Vnc) → measure s' < n → (rounds n s').1 ≡ false → round (rounds n s').0 ≡ waits)
    → measure s < suc n
    → Falls s r
    → (follow (rounds n) s r).1 ≡ false
    → round (follow (rounds n) s r).0 ≡ waits
unfolding follow Falls
follow-ends n s waits ih h f e = f
follow-ends n s (goes_on s') ih h f e = ih s' (omega arith) e
follow-ends n s (returns s') ih h f e = cc

-- When the inner loop ends without leaving the function, the bytes that the state waits for are not
-- all there: no request that has come whole is left unhandled.
rounds_end :
    (n : ℕ) (s : Vnc) → measure s < n → (rounds n s).1 ≡ false → round (rounds n s).0 ≡ waits
unfolding rounds
rounds_end zero s h e = absurd (omega arith)
rounds_end (suc n) s h e = follow-ends n s (round s) (rounds_end n) h (round-Falls s) e

-- On the fuel that a read is given its loop ends by itself: if it does not return from the
-- function, the next round would only wait for more bytes.
pub rounds-full :
    (s : Vnc) → (rounds (full_rounds s) s).1 ≡ false → round (rounds (full_rounds s) s).0 ≡ waits
rounds-full s e = rounds_end (full_rounds s) s (omega (arith, is_value_le s.state)) e
