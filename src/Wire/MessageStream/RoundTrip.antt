-- ===== src/Wire/MessageStream/RoundTrip.antt =====
-- The two streams of lib/wire/messagestream.js together.
use mathlib.Core.List.{append_assoc, append-nil}
use mathlib.Core.Path.{subst}
use mathlib.Core.List.{flatten}
use mercury_farm.Base.{
  ℕ, zero, suc, ◌≡◌, refl, sym, ap, ◌∙◌, ◌≢◌, ◌⊎◌, inl, inr, List, [], ◌∷◌, ◌++◌, arith, length,
  All, length-append,
}
use mercury_farm.Wire.MessageStream.{
  Delimited, empty, push, turns, transform, run, delimit, Turn, stops, reads, emits, turn, follow,
  length_bytes,
}
use mercury_farm.Wire.MessageStream.Fuel.{Blocked, turns-Blocked}
use mercury_farm.Wire.MessageStream.Lengths.{varint-ne}
use mercury_farm.Wire.MessageStream.Expects.{
  wire, Expects, IsShort, Expects-wire, Kept, turn_of-Kept, ended, header, body,
}

-- the messages that are not empty
abbrev pub full : List (List ℕ) → List (List ℕ)
full [] = []
full (m ∷ ms) = push m (full ms)

push-append : (m : List ℕ) (xs ys : List (List ℕ)) → push m (xs ++ ys) ≡ push m xs ++ ys
push-append [] xs ys = refl
push-append (byte ∷ m) xs ys = refl

-- What the loop has emitted, and what is still to come, make up what was expected.
abbrev Progress : List ℕ → List (List ℕ) → Delimited × List (List ℕ) → Type 0
Progress r ms (s, out) =
    (later : List (List ℕ)) × (full ms ≡ out ++ full later) × Expects s r later × All IsShort later

follow-Progress :
    (loop : Delimited → Delimited × List (List ℕ)) (r : List ℕ) (s : Delimited) (t : Turn)
    (ms : List (List ℕ))
    → ((s' : Delimited) (ms' : List (List ℕ))
        → All IsShort ms'
        → Expects s' r ms'
        → Progress r ms' (loop s'))
    → All IsShort ms
    → Expects s r ms
    → Kept r ms s t
    → Progress r ms (follow loop s t)
unfolding follow Kept
follow-Progress loop r s stops ms ih short x k = (ms, refl, x, short)
follow-Progress loop r s (reads s') ms ih short x k = ih s' ms short k
follow-Progress loop r s (emits m s') ms ih short x (ms', e, k) =
    let (later, e', x', short') = ih s' ms' ((subst (All IsShort) e short).1) k in
    (later, ap full e ∙ (ap (push m) e' ∙ push-append m (loop s').1 (full later)), x', short')

turns-Progress :
    (n : ℕ) (r : List ℕ) (s : Delimited) (ms : List (List ℕ))
    → All IsShort ms
    → Expects s r ms
    → Progress r ms (turns n s)
unfolding turns turn
turns-Progress zero r s ms short x = (ms, refl, x, short)
turns-Progress (suc n) r s ms short x =
    follow-Progress (turns n) r s (turn s) ms (turns-Progress n r) short x
      (turn_of-Kept s r s.buffer s.reading_length ms refl refl short x)

Expects-append :
    (s : Delimited) (chunk r : List ℕ) {ms : List (List ℕ)}
    → Expects s (chunk ++ r) ms
    → Expects (record s { buffer = s.buffer ++ chunk }) r ms
Expects-append s chunk r (ended a b c d) = ended a b c (append_assoc s.buffer chunk r ∙ d)
Expects-append s chunk r (header f v l m a b c d k q) =
    header f v l m a b c d k (append_assoc s.buffer chunk r ∙ q)
Expects-append s chunk r (body m a b c q) = body m a b c (append_assoc s.buffer chunk r ∙ q)

transform-Progress :
    (s : Delimited) (chunk r : List ℕ) (ms : List (List ℕ))
    → All IsShort ms
    → Expects s (chunk ++ r) ms
    → Progress r ms (transform s chunk)
unfolding transform
transform-Progress s chunk r ms short x = turns-Progress _ r _ ms short (Expects-append s chunk r x)

transform-Blocked : (s : Delimited) (chunk : List ℕ) → Blocked (transform s chunk).0
unfolding transform
transform-Blocked s chunk = turns-Blocked _ _ (ground arith)

run-Progress :
    (chunks : List (List ℕ)) (s : Delimited) (ms : List (List ℕ))
    → Blocked s
    → All IsShort ms
    → Expects s (flatten chunks) ms
    → Progress [] ms (run s chunks) × Blocked (run s chunks).0
unfolding run flatten
run-Progress [] s ms b short x = ((ms, refl, x, short), b)
run-Progress (chunk ∷ chunks) s ms b short x =
    let (later, e, x', short') = transform-Progress s chunk (flatten chunks) ms short x in
    let ((last, e', x'', short''), b') =
      run-Progress chunks (transform s chunk).0 later (transform-Blocked s chunk) short' x' in
    (
      (
        last,
        e ∙ ap (λ l. (transform s chunk).1 ++ l) e' ∙ sym (append_assoc _ _ (full last)),
        x'',
        short'',
      ),
      b',
    )

delimit-ne : (m w : List ℕ) → [] ≢ delimit m ++ w
unfolding delimit length_bytes
delimit-ne m w e = ground arith

empty_wire : (m : List ℕ) (ms : List (List ℕ)) → [] ≡ m ++ wire ms → m ∷ ms ≡ [] ∷ []
unfolding wire
empty_wire [] [] e = refl
empty_wire [] (m ∷ ms) e = absurd (delimit-ne m (wire ms) e)
empty_wire (b ∷ m) ms e = absurd (cc)

-- With nothing more to come, a blocked reader has read all but perhaps one empty message.
Expects-end :
    (s : Delimited) {ms : List (List ℕ)} → Blocked s → Expects s [] ms → (ms ≡ []) ⊎ (ms ≡ [] ∷ [])
Expects-end s b (ended _ _ _ _) = inl refl
Expects-end s (inl none_left) (header f v l m {ms = ms} a b c d k q) =
    absurd (varint-ne f v (m ++ wire ms) (ap (λ l. l ++ []) (sym none_left) ∙ q))
Expects-end s (inr (reads_body, _)) (header f v l m a b c d k q) = absurd (cc)
Expects-end s (inl none_left) (body m {ms = ms} a b c q) =
    inr (empty_wire m ms (ap (λ l. l ++ []) (sym none_left) ∙ q))
Expects-end s (inr (_, part)) (body m {ms = ms} a b c q) =
    absurd (ground (arith, ap length (sym (append-nil s.buffer) ∙ q), length-append m (wire ms)))

-- Messages shorter than 2^28 bytes, written one after another and read back from any sequence of
-- chunks that carries the same bytes, are given to the reader whole and in order, each once, but
-- for the empty ones, which are lost.
pub run-wire :
    (ms chunks : List (List ℕ))
    → All IsShort ms
    → flatten chunks ≡ wire ms
    → (run empty chunks).1 ≡ full ms
run-wire ms chunks short e =
    let ((later, out, x, _), b) =
      run-Progress chunks empty ms (inl refl) short
        (Expects-wire empty _ ms short refl refl refl e) in
    let none_left : full later ≡ [] = elim (Expects-end _ b x) [
      | inl none_left ↦ ap full none_left
      | inr one_left ↦ ap full one_left
    ] in
    sym (out ∙ (ap (λ l. (run empty chunks).1 ++ l) none_left ∙ append-nil _))
