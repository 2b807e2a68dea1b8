-- ===== src/Device/Forward/Bounds.antt =====
-- How long the writes of lib/units/device/plugins/forward/util/writer.js are.
use mathlib.Core.Path.{subst}
use mercury_farm.Base.{
  ℕ, zero, suc, ◌≡◌, sym, ap, ◌∙◌, ◌+◌, ◌-◌, ◌*◌, ◌/◌, ◌<◌, ◌≤◌, min, false, List, [], ◌∷◌, ◌++◌,
  ◌==◌, if-cases, length, take, drop, arith, length-drop, length-append,
}
use mercury_farm.Device.Forward.{header, max_packet_size, write, transform_write}
use mercury_farm.Device.Forward.Pieces.{concat}
use mercury_farm.Device.Forward.Cuts.{length_head}

abbrev pub AllWithin : ℕ → List (List ℕ) → Type 0
AllWithin n [] = Unit
AllWithin n (l ∷ ls) = (length l ≤ n) × AllWithin n ls

write-AllWithin : (t fuel : ℕ) (chunk : List ℕ) → AllWithin max_packet_size (write t fuel chunk)
unfolding write
write-AllWithin t zero chunk = tt
write-AllWithin t (suc fuel) chunk =
    let size = min max_packet_size (length chunk) in
    (
      omega arith,
      (
        subst (λ n. n ≤ max_packet_size) (sym (length_head chunk)) (omega arith),
        if-cases (AllWithin max_packet_size) (length (drop size chunk) == 0) (λ _. tt)
            (λ _. write-AllWithin t fuel (drop size chunk)),
      ),
    )

-- what is written after the first packet
rest_bound :
    (n fuel left out : ℕ)
    → n < suc fuel
    → left ≡ n - min max_packet_size n
    → (left < fuel → out ≤ left + 4 * (left / max_packet_size + 1))
    → (left == 0) ≡ false
    → 4 + (min max_packet_size n + out) ≤ n + 4 * (n / max_packet_size + 1)
rest_bound n fuel left out h e ih some_left = ground arith

behind_header :
    (t size : ℕ) (l : List ℕ) (n bound : ℕ)
    → length l ≡ n
    → 4 + n ≤ bound
    → length (header t size ++ l) ≤ bound
behind_header t size l n bound e h = omega arith

length-write :
    (t fuel : ℕ) (chunk : List ℕ)
    → length chunk < fuel
    → length (concat (write t fuel chunk)) ≤ length chunk + 4 * (length chunk / max_packet_size + 1)
unfolding write
length-write t zero chunk h = absurd (omega arith)
length-write t (suc fuel) chunk h =
    let size = min max_packet_size (length chunk) in
    if-cases
      (λ ls.
        length (header t size ++ (take size chunk ++ concat ls))
        ≤ length chunk + 4 * (length chunk / max_packet_size + 1))
      (length (drop size chunk) == 0)
      (λ _.
        behind_header t size (take size chunk ++ []) (size + 0)
          (length chunk + 4 * (length chunk / max_packet_size + 1))
          (length-append (take size chunk) [] ∙ ap (λ n. n + 0) (length_head chunk)) (omega arith))
      (λ left.
        behind_header t size (take size chunk ++ concat (write t fuel (drop size chunk)))
          (size + length (concat (write t fuel (drop size chunk))))
          (length chunk + 4 * (length chunk / max_packet_size + 1))
          (length-append (take size chunk) (concat (write t fuel (drop size chunk)))
            ∙ ap (λ n. n + length (concat (write t fuel (drop size chunk)))) (length_head chunk))
          (rest_bound (length chunk) fuel (length (drop size chunk))
            (length (concat (write t fuel (drop size chunk)))) h (length-drop size chunk)
            (length-write t fuel (drop size chunk)) left))

-- Nothing that a write pushes is longer than 65535 bytes, and all of it together is at most 4
-- bytes longer than the chunk for each 65535 bytes of it, and for one packet more.
pub transform_write-bounds :
    (t : ℕ) (chunk : List ℕ)
    → AllWithin max_packet_size (transform_write t chunk)
      × (length (concat (transform_write t chunk))
          ≤ length chunk + 4 * (length chunk / max_packet_size + 1))
unfolding transform_write
transform_write-bounds t chunk = (
  write-AllWithin t (suc (length chunk)) chunk,
  length-write t (suc (length chunk)) chunk (omega arith),
)
