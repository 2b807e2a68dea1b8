-- ===== src/Device/Forward/ShortChunks.antt =====
-- Headers that come in pieces, in lib/units/device/plugins/forward/util/reader.js.
use mathlib.Core.Path.{subst}
use mercury_farm.Base.{
  ℕ, zero, suc, ◌≡◌, refl, sym, ◌<◌, List, [], ◌∷◌, ltb, if-cases, length, arith,
}
use mercury_farm.Device.Forward.{
  Need, of_header, Reader, Packet, round, rounds, transform_read, run,
}

-- chunks that are each shorter than a header
abbrev pub AllShort : List (List ℕ) → Type 0
AllShort [] = Unit
AllShort (chunk ∷ chunks) = (length chunk < 4) × AllShort chunks

record Deaf (es : List Packet) (s : Reader) : Type 0 where
  needs : s.need ≡ of_header 4
  emits : s.emitted ≡ es

round-Deaf :
    (size : ℕ) (bytes : List ℕ) (n : Need) (s : Reader) (es : List Packet)
    → size < 4
    → n ≡ of_header 4
    → Deaf es s
    → Deaf es (round size bytes n s).0
unfolding round
round-Deaf size bytes n s es h e k =
    subst (λ n. Deaf es (round size bytes n s).0) (sym e)
      (if-cases (λ (p : Reader × List ℕ). Deaf es p.0) (ltb size 4)
        (λ _. record { needs = k.needs; emits = k.emits }) (λ large. absurd (ground arith)))

rounds-Deaf :
    (fuel size : ℕ) (bytes : List ℕ) (s : Reader) (es : List Packet)
    → size < 4
    → Deaf es s
    → Deaf es (rounds fuel size bytes s)
unfolding rounds
rounds-Deaf zero size bytes s es h k = k
rounds-Deaf (suc fuel) size [] s es h k = k
rounds-Deaf (suc fuel) size (b ∷ bytes) s es h k =
    rounds-Deaf fuel size (round size (b ∷ bytes) s.need s).1 (round size (b ∷ bytes) s.need s).0 es
      h (round-Deaf size (b ∷ bytes) s.need s es h k.needs k)

run-Deaf :
    (chunks : List (List ℕ)) (s : Reader) (es : List Packet)
    → AllShort chunks
    → Deaf es s
    → Deaf es (run chunks s)
unfolding run transform_read
run-Deaf [] s es h k = k
run-Deaf (chunk ∷ chunks) s es h k =
    run-Deaf chunks (transform_read chunk s) es h.1
      (rounds-Deaf (length chunk) (length chunk) chunk s es h.0 k)

-- A reader before a header, given chunks that are each shorter than a header, emits nothing and
-- stays before a header, however many there are.
pub short-loses :
    (chunks : List (List ℕ)) (s : Reader)
    → AllShort chunks
    → s.need ≡ of_header 4
    → ((run chunks s).emitted ≡ s.emitted) × ((run chunks s).need ≡ of_header 4)
short-loses chunks s h e =
    let k = run-Deaf chunks s s.emitted h (record { needs = e; emits = refl }) in (k.emits, k.needs)
