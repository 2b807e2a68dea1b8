-- ===== src/Device/Forward/Packets.antt =====
-- The reading of whole packets in lib/units/device/plugins/forward/util/reader.js.
use mercury_farm.Base.{
  ℕ, suc, ◌≡◌, refl, ap, ◌∙◌, ◌+◌, ◌*◌, ◌/◌, ◌%◌, ◌<◌, ◌≤◌, none, some, List, [], ◌∷◌, ◌++◌, leb,
  ltb, ◌==◌, if-cases, length, arith, take-append_self, drop-append_self, length-append,
}
use mercury_farm.Device.Forward.{
  header, of_header, of_packet, Packet, Reader, u16_at, copy, headed, headed_at, round, rounds,
}

-- a reader before a header
abbrev pub before : ℕ → ℕ → ℕ → ℕ → ℕ → List Packet → Reader
before a b c d t es = record {
  header_bytes = a ∷ b ∷ c ∷ d ∷ [];
  need = of_header 4;
  target = t;
  emitted = es;
}

le16_value : (n : ℕ) → n < 65536 → n % 256 + 256 * (n / 256 % 256) ≡ n
le16_value n h = omega arith

round-header :
    (size t n a b c d t' : ℕ) (es : List Packet) (bytes : List ℕ)
    → 4 ≤ size
    → round size (header t n ++ bytes) (of_header 4) (before a b c d t' es)
      ≡ (headed (header t n) (before a b c d t' es), bytes)
unfolding round copy
round-header size t n a b c d t' es bytes big =
    if-cases (λ r. r ≡ (headed (header t n) (before a b c d t' es), bytes)) (ltb size 4)
      (λ small. ground arith) (λ _. refl)

headed-eq :
    (t n : ℕ) (s : Reader)
    → t < 65536
    → n < 65536
    → headed (header t n) s ≡ headed_at t n (header t n) s
unfolding u16_at
headed-eq t n s ht hn = rw (le16_value t ht, le16_value n hn) refl

headed_at-some :
    (t n : ℕ) (bytes : List ℕ) (s : Reader)
    → 0 < n
    → headed_at t n bytes s ≡ record s { header_bytes = bytes; target = t; need = of_packet n }
unfolding headed_at
headed_at-some t n bytes s h =
    if-cases (λ r. r ≡ record s { header_bytes = bytes; target = t; need = of_packet n }) (n == 0)
      (λ e. ground arith) (λ _. refl)

-- a header of bytes
rounds-header :
    (fuel size t n a b c d t' : ℕ) (es : List Packet) (bytes : List ℕ)
    → 4 ≤ size
    → 0 < n
    → t < 65536
    → n < 65536
    → rounds (suc fuel) size (header t n ++ bytes) (before a b c d t' es)
      ≡ rounds fuel size bytes
          (record { header_bytes = header t n; need = of_packet n; target = t; emitted = es })
unfolding rounds
rounds-header fuel size t n a b c d t' es bytes big some_bytes ht hn =
    ap (λ p. rounds fuel size p.1 p.0) (round-header size t n a b c d t' es bytes big)
    ∙ ap (rounds fuel size bytes) (
        headed-eq t n (before a b c d t' es) ht hn
        ∙ headed_at-some t n (header t n) (before a b c d t' es) some_bytes)

pub rounds-fin :
    (fuel size t a b c d t' : ℕ) (es : List Packet) (bytes : List ℕ)
    → 4 ≤ size
    → t < 65536
    → rounds (suc fuel) size (header t 0 ++ bytes) (before a b c d t' es)
      ≡ rounds fuel size bytes (before (t % 256) (t / 256 % 256) 0 0 t (es ++ (t, none) ∷ []))
unfolding rounds headed_at
rounds-fin fuel size t a b c d t' es bytes big ht =
    ap (λ p. rounds fuel size p.1 p.0) (round-header size t 0 a b c d t' es bytes big)
    ∙ ap (rounds fuel size bytes) (headed-eq t 0 (before a b c d t' es) ht (omega arith))

rounds-body :
    (fuel size t : ℕ) (h : List ℕ) (es : List Packet) (x : ℕ) (body bytes : List ℕ)
    → rounds (suc fuel) size ((x ∷ body) ++ bytes) (record {
      header_bytes = h;
      need = of_packet (length (x ∷ body));
      target = t;
      emitted = es;
    })
      ≡ rounds fuel size bytes (record {
        header_bytes = h;
        need = of_header 4;
        target = t;
        emitted = es ++ (t, some (x ∷ body)) ∷ [];
      })
unfolding rounds round
rounds-body fuel size t h es x body bytes =
    if-cases
      (λ (p : Reader × List ℕ).
        rounds fuel size p.1 p.0
        ≡ rounds fuel size bytes (record {
          header_bytes = h;
          need = of_header 4;
          target = t;
          emitted = es ++ (t, some (x ∷ body)) ∷ [];
        }))
      (leb (length (x ∷ body)) (length ((x ∷ body) ++ bytes)))
      (λ _. (rw (take-append_self body bytes, drop-append_self body bytes) refl))
      (λ h. ground (arith, length-append body bytes))

-- a packet with a body
pub rounds-packet :
    (fuel size t a b c d t' : ℕ) (es : List Packet) (x : ℕ) (body bytes : List ℕ)
    → 4 ≤ size
    → t < 65536
    → length (x ∷ body) < 65536
    → rounds
        (suc (suc fuel))
        size
        (header t (length (x ∷ body)) ++ ((x ∷ body) ++ bytes))
        (before a b c d t' es)
      ≡ rounds fuel size bytes (
          before
            (t % 256)
            (t / 256 % 256)
            (length (x ∷ body) % 256)
            (length (x ∷ body) / 256 % 256)
            t
            (es ++ (t, some (x ∷ body)) ∷ []))
rounds-packet fuel size t a b c d t' es x body bytes big ht hn =
    rounds-header (suc fuel) size t (length (x ∷ body)) a b c d t' es ((x ∷ body) ++ bytes) big
      (omega arith) ht hn
    ∙ rounds-body fuel size t (header t (length (x ∷ body))) es x body bytes
