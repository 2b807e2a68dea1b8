-- ===== src/Provider/AdbWire.antt =====
-- The bytes of lib/units/provider/ADBObserver.js: the frame of a request and the reading of a
-- response. A byte is a number; the spaces, signs and 0x that parseInt lets stand before a number
-- are not modelled.
pub mod RoundTrip
pub mod Extension
use mercury_farm.Base.{
  ℕ, suc, zero, ◌+◌, ◌-◌, ◌*◌, ◌/◌, ◌%◌, Bool, true, false, Option, none, some, List, [], ◌∷◌, ◌++◌,
  leb, ltb, if◌then◌else◌, length, take, drop, replicate, ◌==◌, ◌&&◌,
}

-- `toString(16)`, with its digits at most as many as the fuel
abbrev pub hex_digit : ℕ → ℕ
hex_digit d = if ltb d 10 then d + 48 else d + 87

unfoldable pub to_hex : ℕ → ℕ → List ℕ
to_hex zero n = []
to_hex (suc fuel) n =
    let rest = to_hex fuel (n / 16) in
    if ltb n 16 then hex_digit n ∷ [] else rest ++ hex_digit (n % 16) ∷ []

unfoldable pub pad_start : ℕ → List ℕ → List ℕ
pad_start width digits = replicate (width - length digits) 48 ++ digits

-- the message that `processNextRequest` writes for a command of less than 16 ^ 8 bytes
unfoldable pub frame : List ℕ → List ℕ
frame command = pad_start 4 (to_hex 8 (length command)) ++ command

abbrev pub digit : ℕ → Option ℕ
digit c =
    if leb 48 c && leb c 57
    then some (c - 48)
    else if leb 97 c && leb c 102
    then some (c - 87)
    else if leb 65 c && leb c 70
    then some (c - 55)
    else none

-- `parseInt(_, 16)`: up to the first character that is no digit; `none` is NaN
unfoldable pub parse_from : ℕ → List ℕ → ℕ
parse_from n [] = n
parse_from n (c ∷ cs) = elim (digit c) [ none ↦ n | some d ↦ parse_from (n * 16 + d) cs ]

unfoldable pub parse_int : List ℕ → Option ℕ
parse_int [] = none
parse_int (c ∷ cs) = elim (digit c) [ none ↦ none | some d ↦ some (parse_from d cs) ]

-- what stands behind a length, and what is left
pub data Framed : Type 0 where
  incomplete : Framed
  nan : Framed
  complete : List ℕ → List ℕ → Framed

unfoldable pub sized : Option ℕ → List ℕ → Framed
sized none bytes = nan
sized (some n) bytes =
    if ltb (length bytes) n then incomplete else complete (take n bytes) (drop n bytes)

unfoldable pub framed : List ℕ → Framed
framed (a ∷ b ∷ c ∷ d ∷ bytes) = sized (parse_int (a ∷ b ∷ c ∷ d ∷ [])) bytes
framed (a ∷ b ∷ c ∷ []) = incomplete
framed (a ∷ b ∷ []) = incomplete
framed (a ∷ []) = incomplete
framed [] = incomplete

-- the start of a response
pub data Reply : Type 0 where
  waits : Reply
  -- the message, and what is left of the buffer
  fails : List ℕ → List ℕ → Reply
  okay : List ℕ → Reply
  unknown : Reply

abbrev pub okay_status : List ℕ
okay_status = 79 ∷ 75 ∷ 65 ∷ 89 ∷ []

abbrev pub fail_status : List ℕ
fail_status = 70 ∷ 65 ∷ 73 ∷ 76 ∷ []

unfoldable pub bytes_eq : List ℕ → List ℕ → Bool
bytes_eq [] [] = true
bytes_eq (a ∷ xs) (b ∷ ys) = (a == b) && bytes_eq xs ys
bytes_eq [] (b ∷ ys) = false
bytes_eq (a ∷ xs) [] = false

-- with NaN for its length a message is empty and the whole buffer is left
unfoldable pub failing : Framed → List ℕ → Reply
failing incomplete buffer = waits
failing nan buffer = fails [] buffer
failing (complete message rest) buffer = fails message rest

unfoldable pub reply : List ℕ → Reply
reply (a ∷ b ∷ c ∷ d ∷ bytes) =
    if bytes_eq (a ∷ b ∷ c ∷ d ∷ []) fail_status
    then failing (framed bytes) (a ∷ b ∷ c ∷ d ∷ bytes)
    else if bytes_eq (a ∷ b ∷ c ∷ d ∷ []) okay_status
    then okay bytes
    else unknown
reply (a ∷ b ∷ c ∷ []) = waits
reply (a ∷ b ∷ []) = waits
reply (a ∷ []) = waits
reply [] = waits
