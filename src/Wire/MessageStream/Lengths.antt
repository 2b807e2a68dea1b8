-- ===== src/Wire/MessageStream/Lengths.antt =====
-- Lengths below 2^28: the encoder's bytes, and what is left of them to read.
use mercury_farm.Base.{
  ℕ, zero, suc, ◌+◌, ◌*◌, ◌/◌, ◌%◌, ◌^◌, ◌≤◌, ◌<◌, ◌≡◌, refl, List, [], ◌∷◌, ◌++◌, ◌≢◌, arith, ltb,
  if◌then◌else◌, ◌⊎◌, inl, inr, Bool-cases, ltb→lt,
}
use mercury_farm.Base.Int.{pos, int32-pos}
use mercury_farm.Wire.MessageStream.{length_bytes}

-- the plain varint of a number, on fuel
pub varint : ℕ → ℕ → List ℕ
varint zero n = n ∷ []
varint (suc f) n =
    let rest = varint f (n / 128) in if ltb 127 n then (128 + n % 128) ∷ rest else n ∷ []

-- Below 2^28 no 32-bit conversion changes the value, and four bytes are enough.
pub length_bytes-varint :
    (f g n : ℕ) → f ≤ g → n < 2 ^ 28 → n < 128 * 128 ^ f → length_bytes g (pos n) ≡ varint f n
unfolding length_bytes varint
length_bytes-varint zero zero n le h k = ground arith
length_bytes-varint zero (suc g) n le h k = ground arith
length_bytes-varint (suc f) zero n le h k = absurd (omega arith)
length_bytes-varint (suc f) (suc g) n le h k =
    rw (int32-pos n (omega arith)) (ground (arith, length_bytes-varint f g (n / 128)))

-- The first byte that is still to come, and the rest: the varint ends, or a multiple of 128 is left.
pub varint-cases :
    (f n : ℕ)
    → n < 128 * 128 ^ f
    → ((varint f n ≡ n ∷ []) × (n < 128))
      ⊎ ((g : ℕ) × (f ≡ suc g)
          × (varint f n ≡ (128 + n % 128) ∷ varint g (n / 128))
          × (n / 128 < 128 * 128 ^ g))
unfolding varint
varint-cases zero n h = inl (refl, omega arith)
varint-cases (suc f) n h = elim (Bool-cases (ltb 127 n)) [
  | inl more ↦ inr (f, refl, rw more, omega (arith, ltb→lt 127 n more))
  | inr last ↦ inl (rw last, ground arith)
]

-- There is always a byte.
pub varint-ne : (f v : ℕ) (w : List ℕ) → [] ≢ varint f v ++ w
unfolding varint
varint-ne zero v w e = cc
varint-ne (suc f) v w e = ground arith
