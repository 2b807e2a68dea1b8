-- ===== src/Wire/MessageStream/Expects.antt =====
-- The messages that a reader is still to emit, and what one round does to them.
use mathlib.Core.List.{append_assoc}
use mercury_farm.Base.{
  ℕ, zero, suc, ◌+◌, ◌*◌, ◌/◌, ◌%◌, ◌^◌, ◌≤◌, ◌<◌, ◌≡◌, refl, sym, ap, ◌∙◌, inl, inr, Bool-cases,
  Bool, true, false, List, [], ◌∷◌, ◌++◌, arith, length, take, drop, All, ◌==◌, take-append_le,
  drop-append_le, take-append_self, drop-append_self, if◌then◌else◌,
}
use mercury_farm.Base.Int.{ℤ, pos, leb_ℤ, shl32, +ℤ-pos, int32-pos, ◌+ℤ◌}
use mercury_farm.Wire.MessageStream.{
  Delimited, read_length, delimit, Turn, stops, reads, emits, after_body, turn_of, slice_from,
  slice_to,
}
use mercury_farm.Wire.MessageStream.Lengths.{varint, length_bytes-varint, varint-cases}

unfoldable pub wire : List (List ℕ) → List ℕ
wire [] = []
wire (m ∷ ms) = delimit m ++ wire ms

-- The messages that the reader in state `s`, with the bytes `r` still to be written, is to emit.
pub data Expects (s : Delimited) (r : List ℕ) : List (List ℕ) → Type 0 where
  ended :
      s.reading_length ≡ true
      → s.length_index ≡ 0
      → s.len ≡ pos 0
      → s.buffer ++ r ≡ []
      → Expects s r []
  header :
      (f v l : ℕ) (m : List ℕ) {ms : List (List ℕ)}
      → s.reading_length ≡ true
      → s.length_index + f ≡ 3
      → s.len ≡ pos l
      → length m ≡ l + v * 2 ^ (7 * s.length_index)
      → v < 128 * 128 ^ f
      → s.buffer ++ r ≡ varint f v ++ (m ++ wire ms)
      → Expects s r (m ∷ ms)
  body :
      (m : List ℕ) {ms : List (List ℕ)}
      → s.reading_length ≡ false
      → s.length_index ≡ 0
      → s.len ≡ pos (length m)
      → s.buffer ++ r ≡ m ++ wire ms
      → Expects s r (m ∷ ms)

abbrev pub IsShort : List ℕ → Type 0
IsShort m = length m < 2 ^ 28

-- At the start of a message.
pub Expects-wire :
    (s : Delimited) (r : List ℕ) (ms : List (List ℕ))
    → All IsShort ms
    → s.reading_length ≡ true
    → s.length_index ≡ 0
    → s.len ≡ pos 0
    → s.buffer ++ r ≡ wire ms
    → Expects s r ms
unfolding wire delimit
Expects-wire s r [] short a b c d = ended a b c d
Expects-wire s r (m ∷ ms) short a b c d =
    header 3 (length m) 0 m a (omega arith) c (rw b (omega arith)) (omega arith) (
      d
      ∙ (rw (length_bytes-varint 3 5 (length m) (omega arith) short.0 (omega arith), append_assoc)))

-- One round keeps the messages that are to come.
unfoldable pub Kept : List ℕ → List (List ℕ) → Delimited → Turn → Type 0
Kept r ms s stops = Unit
Kept r ms s (reads s') = Expects s' r ms
Kept r ms s (emits m s') = (ms' : List (List ℕ)) × (ms ≡ m ∷ ms') × Expects s' r ms'

shl32-pos : (i f v : ℕ) → i + f ≡ 3 → v < 128 → shl32 v (7 * i) ≡ pos (v * 2 ^ (7 * i))
unfolding shl32
shl32-pos zero f v e h = int32-pos _ (omega arith)
shl32-pos (suc zero) f v e h = int32-pos _ (omega arith)
shl32-pos (suc (suc zero)) f v e h = int32-pos _ (omega arith)
shl32-pos (suc (suc (suc zero))) f v e h = int32-pos _ (omega arith)
shl32-pos (suc (suc (suc (suc i)))) f v e h = absurd (omega arith)

-- A number is its low seven bits and the rest, at any of the four positions.
seven_bits :
    (i f v : ℕ) → i + f ≡ 3 → v * 2 ^ (7 * i) ≡ v % 128 * 2 ^ (7 * i) + v / 128 * 2 ^ (7 * (i + 1))
seven_bits zero f v e = omega arith
seven_bits (suc zero) f v e = omega arith
seven_bits (suc (suc zero)) f v e = omega arith
seven_bits (suc (suc (suc zero))) f v e = omega arith
seven_bits (suc (suc (suc (suc i)))) f v e = absurd (omega arith)

∷-injective : {x y : ℕ} {xs ys : List ℕ} → x ∷ xs ≡ y ∷ ys → (x ≡ y) × (xs ≡ ys)
∷-injective e = (cc, cc)

next_byte :
    {b rest w : List ℕ} (r tail : List ℕ) {byte x : ℕ} {t : List ℕ}
    → b ≡ byte ∷ rest
    → b ++ r ≡ w ++ tail
    → w ≡ x ∷ t
    → (byte ≡ x) × (rest ++ r ≡ t ++ tail)
next_byte r tail e q f = ∷-injective (ap (λ l. l ++ r) (sym e) ∙ q ∙ ap (λ l. l ++ tail) f)

len_add :
    (z : ℤ) (i f l w byte : ℕ)
    → z ≡ pos l
    → i + f ≡ 3
    → byte % 128 ≡ w
    → w < 128
    → z +ℤ shl32 (byte % 128) (7 * i) ≡ pos (l + w * 2 ^ (7 * i))
len_add z i f l w byte c e h k = rw (c, h, shl32-pos i f w e k, +ℤ-pos)

read_length-Expects :
    (s : Delimited) (r : List ℕ) (byte : ℕ) (rest : List ℕ) {ms : List (List ℕ)}
    → s.buffer ≡ byte ∷ rest
    → s.reading_length ≡ true
    → Expects s r ms
    → Expects (read_length s byte rest) r ms
unfolding read_length
read_length-Expects s r byte rest e t (ended a b c d) = absurd (cc (ap (λ l. l ++ r) e))
read_length-Expects s r byte rest e t (header f v l m {ms = ms} a b c d k q) =
    elim (varint-cases f v k) [
      | inl (last, small) ↦
          let (byte_is, rest_is) = next_byte r (m ++ wire ms) e q last in
          body m (ground arith) (ground arith)
            (len_add s.len s.length_index f l v byte c b (omega arith) small ∙ ap pos (sym d))
            rest_is
      | inr (g, down, more, k') ↦
          let (byte_is, rest_is) = next_byte r (m ++ wire ms) e q more in
          let index_is : (if byte / 128 % 2 == 1 then s.length_index + 1 else 0)
              ≡ s.length_index + 1 =
            ground arith in
          header g (v / 128) (l + v % 128 * 2 ^ (7 * s.length_index)) m (ground arith) (omega arith)
            (len_add s.len s.length_index f l (v % 128) byte c b (omega arith) (omega arith))
            (rw index_is (omega (arith, seven_bits s.length_index f v b))) k' rest_is
    ]
read_length-Expects s r byte rest e t (body m a b c q) = absurd (cc)

-- The body stands at the front of the buffer.
cut :
    (k : ℕ) (b r m w : List ℕ)
    → b ++ r ≡ m ++ w
    → k ≡ length m
    → k ≤ length b
    → (take k b ≡ m) × (drop k b ++ r ≡ w)
cut k b r m w e h le = (
  sym (take-append_le k b r le) ∙ ap (take k) e ∙ rw h (take-append_self m w),
  sym (drop-append_le k b r le) ∙ ap (drop k) e ∙ rw h (drop-append_self m w),
)

emits-Expects :
    (s : Delimited) (r : List ℕ) {ms : List (List ℕ)}
    → All IsShort ms
    → s.reading_length ≡ false
    → leb_ℤ s.len (pos (length s.buffer)) ≡ true
    → Expects s r ms
    → Kept r ms s (emits (slice_to s.len s.buffer) (after_body s))
unfolding Kept
emits-Expects s r short f whole (ended a b c d) = absurd (cc)
emits-Expects s r short f whole (header g v l m a b c d k q) = absurd (cc)
emits-Expects s r short f whole (body m {ms = ms} a b c q) =
    let (body_is, rest_is) = cut (length m) s.buffer r m (wire ms) q refl (ground arith) in
    (
      ms,
      ap (λ x. x ∷ ms) (sym body_is ∙ ap (λ z. slice_to z s.buffer) (sym c)),
      Expects-wire (after_body s) r ms short.1 refl b refl
          (ap (λ z. slice_from z s.buffer ++ r) c ∙ rest_is),
    )

pub turn_of-Kept :
    (s : Delimited) (r : List ℕ) (b : List ℕ) (reading : Bool) (ms : List (List ℕ))
    → s.buffer ≡ b
    → s.reading_length ≡ reading
    → All IsShort ms
    → Expects s r ms
    → Kept r ms s (turn_of b reading s)
unfolding turn_of
turn_of-Kept s r [] reading ms e f short x = unfold Kept in tt
turn_of-Kept s r (byte ∷ rest) true ms e f short x =
    unfold Kept in read_length-Expects s r byte rest e f x
turn_of-Kept s r (byte ∷ rest) false ms e f short x =
    elim (Bool-cases (leb_ℤ s.len (pos (length s.buffer)))) [
      | inl whole ↦ rw whole (emits-Expects s r short f whole x)
      | inr part ↦ rw part (unfold Kept in tt)
    ]
