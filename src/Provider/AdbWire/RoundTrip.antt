-- ===== src/Provider/AdbWire/RoundTrip.antt =====
-- The frame of a request and the reading of a length in lib/units/provider/ADBObserver.js.
use mercury_farm.Base.{
  ℕ, ◌≡◌, refl, ap, ◌∙◌, suc, ◌+◌, ◌*◌, ◌/◌, ◌%◌, ◌<◌, ◌≤◌, Option, none, some, List, [], ◌∷◌, ◌++◌,
  ltb, if-cases, length, arith, take-append_self, drop-append_self, length-append, lt→ltb, ltb→lt,
  ◌⊎◌, inl, inr, Bool-cases,
}
use mercury_farm.Provider.AdbWire.{
  to_hex, hex_digit, pad_start, frame, digit, parse_from, parse_int, complete, sized, framed,
}

digit-hex_digit : (d : ℕ) → d < 16 → digit (hex_digit d) ≡ some d
digit-hex_digit d h = ground arith

to_hex-small : (fuel n : ℕ) → n < 16 → to_hex (suc fuel) n ≡ hex_digit n ∷ []
unfolding to_hex
to_hex-small fuel n h = rw (lt→ltb n 16 h) refl

to_hex-big :
    (fuel n : ℕ) → 16 ≤ n → to_hex (suc fuel) n ≡ to_hex fuel (n / 16) ++ hex_digit (n % 16) ∷ []
unfolding to_hex
to_hex-big fuel n h =
    if-cases (λ r. r ≡ to_hex fuel (n / 16) ++ hex_digit (n % 16) ∷ []) (ltb n 16)
      (λ small. ground arith) (λ _. refl)

below : (a b : ℕ) → a < b ⊎ b ≤ a
below a b = elim (Bool-cases (ltb a b)) [ inl h ↦ inl (ltb→lt a b h) | inr h ↦ inr (ground arith) ]

-- with a digit at the end
grown :
    (fuel n : ℕ) (ds : List ℕ)
    → 16 ≤ n
    → to_hex fuel (n / 16) ≡ ds
    → to_hex (suc fuel) n ≡ ds ++ hex_digit (n % 16) ∷ []
grown fuel n ds h e = to_hex-big fuel n h ∙ ap (λ r. r ++ hex_digit (n % 16) ∷ []) e

abbrev four : ℕ → ℕ → ℕ → ℕ → List ℕ
four a b c d = hex_digit a ∷ hex_digit b ∷ hex_digit c ∷ hex_digit d ∷ []

abbrev digits : ℕ → List ℕ
digits n = four (n / 16 / 16 / 16) (n / 16 / 16 % 16) (n / 16 % 16) (n % 16)

four-eq :
    (a b c d a' b' c' d' : ℕ) → a ≡ a' → b ≡ b' → c ≡ c' → d ≡ d' → four a b c d ≡ four a' b' c' d'
four-eq a b c d a' b' c' d' e1 e2 e3 e4 = rw (e1, e2, e3, e4) refl

pad_start-to_hex : (n : ℕ) → n < 65536 → pad_start 4 (to_hex 8 n) ≡ digits n
unfolding pad_start
pad_start-to_hex n h = elim (below n 16) [
  | inl a ↦
      ap (pad_start 4) (to_hex-small 7 n a)
      ∙ four-eq 0 0 0 n _ _ _ _ (omega arith) (omega arith) (omega arith) (omega arith)
  | inr a ↦ elim (below n 256) [
    | inl b ↦
        ap (pad_start 4) (grown 7 n _ a (to_hex-small 6 (n / 16) (omega arith)))
        ∙ four-eq 0 0 (n / 16) (n % 16) _ _ _ _ (omega arith) (omega arith) (omega arith)
            (omega arith)
    | inr b ↦ elim (below n 4096) [
      | inl c ↦
          ap (pad_start 4) (
            grown 7 n _ a
              (grown 6 (n / 16) _ (omega arith) (to_hex-small 5 (n / 16 / 16) (omega arith))))
          ∙ four-eq 0 (n / 16 / 16) (n / 16 % 16) (n % 16) _ _ _ _ (omega arith) (omega arith)
              (omega arith) (omega arith)
      | inr c ↦ ap (pad_start 4) (
          grown 7 n _ a (
            grown 6 (n / 16) _ (omega arith) (
              grown 5 (n / 16 / 16) _ (omega arith)
                (to_hex-small 4 (n / 16 / 16 / 16) (omega arith)))))
    ]
  ]
]

parse_from-hex_digit :
    (n d : ℕ) (cs : List ℕ) → d < 16 → parse_from n (hex_digit d ∷ cs) ≡ parse_from (n * 16 + d) cs
unfolding parse_from
parse_from-hex_digit n d cs h =
    ap (λ (o : Option ℕ). elim o as (λ _. ℕ) [ none ↦ n | some e ↦ parse_from (n * 16 + e) cs ])
      (digit-hex_digit d h)

parse_int-hex_digit :
    (d : ℕ) (cs : List ℕ) → d < 16 → parse_int (hex_digit d ∷ cs) ≡ some (parse_from d cs)
unfolding parse_int
parse_int-hex_digit d cs h =
    ap
      (λ (o : Option ℕ). elim o as (λ _. Option ℕ) [
        | none ↦ none
        | some e ↦ some (parse_from e cs)
      ])
      (digit-hex_digit d h)

parse_from-end : (n : ℕ) → parse_from n [] ≡ n
unfolding parse_from
parse_from-end n = refl

pub parse_int-digits : (n : ℕ) → n < 65536 → parse_int (digits n) ≡ some n
parse_int-digits n h =
    parse_int-hex_digit (n / 16 / 16 / 16) _ (omega arith)
    ∙ ap some (
        parse_from-hex_digit _ (n / 16 / 16 % 16) _ (omega arith)
        ∙ parse_from-hex_digit _ (n / 16 % 16) _ (omega arith)
        ∙ parse_from-hex_digit _ (n % 16) _ (omega arith)
        ∙ parse_from-end _
        ∙ omega arith)

sized-append :
    (bytes rest : List ℕ) → sized (some (length bytes)) (bytes ++ rest) ≡ complete bytes rest
unfolding sized
sized-append bytes rest =
    if-cases (λ r. r ≡ complete bytes rest) (ltb (length (bytes ++ rest)) (length bytes))
      (λ short. ground (arith, length-append bytes rest))
      (λ _. (rw (take-append_self bytes rest, drop-append_self bytes rest) refl))

framed-digits :
    (n : ℕ) (bytes : List ℕ) → framed (digits n ++ bytes) ≡ sized (parse_int (digits n)) bytes
unfolding framed
framed-digits n bytes = refl

-- The frame of a command of less than 65536 bytes, with whatever behind it, is read as that
-- command, and what stands behind it is left.
pub framed-frame :
    (command rest : List ℕ)
    → length command < 65536
    → framed (frame command ++ rest) ≡ complete command rest
unfolding frame
framed-frame command rest h =
    ap (λ ds. framed ((ds ++ command) ++ rest)) (pad_start-to_hex (length command) h)
    ∙ framed-digits (length command) (command ++ rest)
    ∙ ap (λ n. sized n (command ++ rest)) (parse_int-digits (length command) h)
    ∙ sized-append command rest
