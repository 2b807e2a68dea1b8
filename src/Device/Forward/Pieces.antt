-- ===== src/Device/Forward/Pieces.antt =====
-- Whole packets in a chunk of the reader of lib/units/device/plugins/forward/util.
use mathlib.Core.Path.{subst}
use mathlib.Core.List.{append-nil, append_assoc}
use mercury_farm.Base.{
  ℕ, zero, suc, ◌≡◌, refl, sym, ap, ◌∙◌, ◌/◌, ◌%◌, ◌<◌, ◌≤◌, none, some, List, [], ◌∷◌, ◌++◌, map,
  length, arith, length-append,
}
use mercury_farm.Device.Forward.{header, Packet, Reader, rounds, transform_read}
use mercury_farm.Device.Forward.Packets.{before, rounds-fin, rounds-packet}

-- a target and bytes for it, as they are packed: without bytes, a fin
abbrev pub Piece : Type 0
Piece = ℕ × List ℕ

abbrev pub packet_of : Piece → Packet
packet_of (t, []) = (t, none)
packet_of (t, x ∷ body) = (t, some (x ∷ body))

abbrev pub encode : Piece → List ℕ
encode p = header p.0 (length p.1) ++ p.1

unfoldable pub encode_all : List Piece → List ℕ
encode_all [] = []
encode_all (p ∷ ps) = encode p ++ encode_all ps

abbrev pub Fits : List Piece → Type 0
Fits [] = Unit
Fits (p ∷ ps) = (p.0 < 65536) × (length p.1 < 65536) × Fits ps

-- the reader stands before a header and has emitted some packets
abbrev pub AtHeader : List Packet → Reader → Type 0
AtHeader es s = (a : ℕ) × (b : ℕ) × (c : ℕ) × (d : ℕ) × (t : ℕ) × s ≡ before a b c d t es

rounds-nil : (fuel size : ℕ) (s : Reader) → rounds fuel size [] s ≡ s
unfolding rounds
rounds-nil zero size s = refl
rounds-nil (suc fuel) size s = refl

moved :
    (es : List Packet) (p : Packet) (l : List Packet) (s s' : Reader)
    → s ≡ s'
    → AtHeader ((es ++ p ∷ []) ++ l) s'
    → AtHeader (es ++ p ∷ l) s
moved es p l s s' e at =
    subst (λ r. AtHeader (es ++ p ∷ l) r) (sym e)
      (subst (λ k. AtHeader k s') (append_assoc es (p ∷ []) l) at)

rounds-pieces :
    (ps : List Piece) (fuel size a b c d t : ℕ) (es : List Packet)
    → 4 ≤ size
    → Fits ps
    → length (encode_all ps) ≤ fuel
    → AtHeader (es ++ map packet_of ps) (rounds fuel size (encode_all ps) (before a b c d t es))
unfolding encode_all
rounds-pieces [] fuel size a b c d t es big fits enough =
    (a, b, c, d, t, rounds-nil fuel size _ ∙ ap (before a b c d t) (sym (append-nil es)))
rounds-pieces ((t', []) ∷ ps) zero size a b c d t es big fits enough = absurd (omega arith)
rounds-pieces ((t', []) ∷ ps) (suc fuel) size a b c d t es big fits enough =
    moved es (t', none) (map packet_of ps) _ _
      (rounds-fin fuel size t' a b c d t es (encode_all ps) big fits.0)
      (rounds-pieces ps fuel size (t' % 256) (t' / 256 % 256) 0 0 t' (es ++ (t', none) ∷ []) big
        fits.2 (omega arith))
rounds-pieces ((t', x ∷ body) ∷ ps) zero size a b c d t es big fits enough = absurd (omega arith)
rounds-pieces ((t', x ∷ body) ∷ ps) (suc zero) size a b c d t es big fits enough =
    absurd (omega arith)
rounds-pieces ((t', x ∷ body) ∷ ps) (suc (suc fuel)) size a b c d t es big fits enough =
    moved es (t', some (x ∷ body)) (map packet_of ps) _ _
      (rounds-packet fuel size t' a b c d t es x body (encode_all ps) big fits.0 fits.1)
      (rounds-pieces ps fuel size (t' % 256) (t' / 256 % 256) (length (x ∷ body) % 256)
        (length (x ∷ body) / 256 % 256) t' (es ++ (t', some (x ∷ body)) ∷ []) big fits.2
        (ground (arith, length-append body (encode_all ps))))

pub chunk-pieces :
    (ps : List Piece) (s : Reader) (es : List Packet)
    → AtHeader es s
    → Fits ps
    → AtHeader (es ++ map packet_of ps) (transform_read (encode_all ps) s)
unfolding transform_read rounds encode_all
chunk-pieces [] s es at fits = subst (λ l. AtHeader l s) (sym (append-nil es)) at
chunk-pieces (p ∷ ps) s es (a, b, c, d, t, e) fits =
    subst (λ s. AtHeader (es ++ map packet_of (p ∷ ps)) (transform_read (encode_all (p ∷ ps)) s))
      (sym e)
      (rounds-pieces (p ∷ ps) (length (encode_all (p ∷ ps))) (length (encode_all (p ∷ ps))) a b c d
        t es (omega arith) fits (omega arith))

abbrev pub concat {ℓ} : {A : Type ℓ} → List (List A) → List A
concat [] = []
concat (l ∷ ls) = l ++ concat ls
