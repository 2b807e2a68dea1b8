-- ===== src/Device/Forward/Cuts.antt =====
-- How the writer of lib/units/device/plugins/forward/util cuts a chunk into packets.
use mathlib.Core.Path.{subst}
use mercury_farm.Base.{
  ℕ, zero, suc, ◌≡◌, refl, sym, ap, ◌∙◌, ◌-◌, ◌<◌, min, Bool, true, false, List, [], ◌∷◌, ◌++◌, map,
  ◌==◌, if◌then◌else◌, if-cases, length, take, drop, arith, take-append-drop, length-take,
  length-drop,
}
use mercury_farm.Device.Forward.{header, max_packet_size, write}
use mercury_farm.Device.Forward.Pieces.{Piece, encode_all, Fits, concat}

-- how the writer cuts a chunk
abbrev pub cut : ℕ → List ℕ → List (List ℕ)
cut zero chunk = []
cut (suc fuel) chunk =
    let size = min max_packet_size (length chunk) in
    let rest = cut fuel (drop size chunk) in
    take size chunk ∷ (if length (drop size chunk) == 0 then [] else rest)

abbrev pub pieces : ℕ → List (List ℕ) → List Piece
pieces t bodies = map (λ body. (t, body)) bodies

-- the rest of the cut
more_written :
    (t : ℕ) (b : Bool) (ws bodies : List (List ℕ))
    → concat ws ≡ encode_all (pieces t bodies)
    → concat (if b then [] else ws) ≡ encode_all (pieces t (if b then [] else bodies))
unfolding encode_all
more_written t true ws bodies e = refl
more_written t false ws bodies e = e

pub length_head :
    (chunk : List ℕ)
    → length (take (min max_packet_size (length chunk)) chunk) ≡ min max_packet_size (length chunk)
length_head chunk = length-take (min max_packet_size (length chunk)) chunk ∙ omega arith

pub concat-write :
    (t fuel : ℕ) (chunk : List ℕ)
    → concat (write t fuel chunk) ≡ encode_all (pieces t (cut fuel chunk))
unfolding write encode_all
concat-write t zero chunk = refl
concat-write t (suc fuel) chunk =
    let size = min max_packet_size (length chunk) in
    let b = length (drop size chunk) == 0 in
    ap (λ r. header t size ++ (take size chunk ++ r))
      (more_written t b (write t fuel (drop size chunk)) (cut fuel (drop size chunk))
        (concat-write t fuel (drop size chunk)))
    ∙ ap
        (λ n.
          header t n
          ++ (take size chunk
              ++ encode_all (pieces t (if b then [] else cut fuel (drop size chunk)))))
        (sym (length_head chunk))

more_cut :
    (b : Bool) (rest : List ℕ) (bodies : List (List ℕ))
    → (length rest == 0) ≡ b
    → (b ≡ false → concat bodies ≡ rest)
    → concat (if b then [] else bodies) ≡ rest
more_cut true [] bodies e ih = refl
more_cut true (x ∷ rest) bodies e ih = absurd (ground arith)
more_cut false rest bodies e ih = ih refl

pub concat-cut : (fuel : ℕ) (chunk : List ℕ) → length chunk < fuel → concat (cut fuel chunk) ≡ chunk
concat-cut zero chunk h = absurd (omega arith)
concat-cut (suc fuel) chunk h =
    let size = min max_packet_size (length chunk) in
    ap (λ r. take size chunk ++ r)
      (more_cut (length (drop size chunk) == 0) (drop size chunk) (cut fuel (drop size chunk)) refl
        (λ left.
          concat-cut fuel (drop size chunk) (
            shorter (length chunk) fuel (length (drop size chunk)) h (length-drop size chunk)
              left)))
    ∙ take-append-drop size chunk
  where
    shorter :
        (n fuel left : ℕ)
        → n < suc fuel
        → left ≡ n - min max_packet_size n
        → (left == 0) ≡ false
        → left < fuel
    shorter n fuel left h e some_left = ground arith

pub cut-Fits : (t fuel : ℕ) (chunk : List ℕ) → t < 65536 → Fits (pieces t (cut fuel chunk))
cut-Fits t zero chunk h = tt
cut-Fits t (suc fuel) chunk h =
    let size = min max_packet_size (length chunk) in
    (
      h,
      subst (λ n. n < 65536) (sym (length_head chunk)) (omega arith),
      if-cases (λ bodies. Fits (pieces t bodies)) (length (drop size chunk) == 0) (λ _. tt)
          (λ _. cut-Fits t fuel (drop size chunk) h),
    )
