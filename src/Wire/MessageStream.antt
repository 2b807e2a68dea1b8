-- ===== src/Wire/MessageStream.antt =====
-- lib/wire/messagestream.js: messages on a byte stream, each behind its length as a varint. A
-- buffer is the list of its bytes, and `push` appends to the list of what a transform has emitted,
-- unless the buffer is empty: a stream of bytes gives its reader nothing for that.
mod Fuel
pub mod Lengths
pub mod Expects
pub mod RoundTrip
mod Tests
use mercury_farm.Base.{
  ℕ, zero, suc, ◌+◌, ◌-◌, ◌*◌, ◌/◌, ◌%◌, ◌^◌, Bool, true, false, ◌==◌, List, [], ◌∷◌, ◌++◌, length,
  take, drop, ltb, if◌then◌else◌,
}
use mercury_farm.Base.Int.{ℤ, pos, negsuc, ◌+ℤ◌, leb_ℤ, int32, shl32}

-- `buffer.slice(0, k)` and `buffer.slice(k)`: a negative k counts from the end.
abbrev pub slice_to : ℤ → List ℕ → List ℕ
slice_to (pos n) b = take n b
slice_to (negsuc n) b = take (length b - suc n) b

abbrev pub slice_from : ℤ → List ℕ → List ℕ
slice_from (pos n) b = drop n b
slice_from (negsuc n) b = drop (length b - suc n) b

-- DelimitedStream
pub record Delimited : Type 0 where
  pub len : ℤ
  pub length_index : ℕ
  pub reading_length : Bool
  pub buffer : List ℕ

abbrev pub empty : Delimited
empty = record { len = pos 0; length_index = 0; reading_length = true; buffer = [] }

-- One byte of a length: its low seven bits are added, and its top bit says whether more follow.
pub read_length : Delimited → ℕ → List ℕ → Delimited
read_length s byte rest =
    let more = byte / 128 % 2 == 1 in
    record s {
      len = s.len +ℤ shl32 (byte % 128) (7 * s.length_index);
      length_index = if more then s.length_index + 1 else 0;
      reading_length = more;
      buffer = rest;
    }

-- One round of the loop of `_transform`: it ends, takes a length byte, or pushes a message.
pub data Turn : Type 0 where
  stops : Turn
  reads : Delimited → Turn
  emits : List ℕ → Delimited → Turn

abbrev pub after_body : Delimited → Delimited
after_body s = record s { len = pos 0; reading_length = true; buffer = slice_from s.len s.buffer }

pub turn_of : List ℕ → Bool → Delimited → Turn
turn_of [] reading s = stops
turn_of (byte ∷ rest) true s = reads (read_length s byte rest)
turn_of (byte ∷ rest) false s =
    if leb_ℤ s.len (pos (length s.buffer))
    then emits (slice_to s.len s.buffer) (after_body s)
    else stops

pub turn : Delimited → Turn
turn s = turn_of s.buffer s.reading_length s

-- `push`
abbrev pub push : List ℕ → List (List ℕ) → List (List ℕ)
push [] out = out
push (byte ∷ m) out = (byte ∷ m) ∷ out

-- What comes after a round, where `loop` is the rest of the loop.
pub follow : (Delimited → Delimited × List (List ℕ)) → Delimited → Turn → Delimited × List (List ℕ)
follow loop s stops = (s, [])
follow loop s (reads s') = loop s'
follow loop s (emits m s') = let (t, out) = loop s' in (t, push m out)

-- The loop, on fuel; `full_turns` below is enough.
pub turns : ℕ → Delimited → Delimited × List (List ℕ)
turns zero s = (s, [])
turns (suc n) s = follow (turns n) s (turn s)

-- Each two rounds take a byte off the buffer.
abbrev pub full_turns : List ℕ → ℕ
full_turns b = 2 * length b + 2

pub transform : Delimited → List ℕ → Delimited × List (List ℕ)
transform s chunk =
    let buffer = s.buffer ++ chunk in turns (full_turns buffer) (record s { buffer = buffer })

-- What a stream emits over a sequence of chunks.
pub run : Delimited → List (List ℕ) → Delimited × List (List ℕ)
run s [] = (s, [])
run s (chunk ∷ chunks) =
    let (s', out) = transform s chunk in let (s'', rest) = run s' chunks in (s'', out ++ rest)

-- DelimitingStream: `length >>= 7` converts to 32 bits first.
abbrev pub shr7 : ℤ → ℤ
shr7 (pos n) = pos (n / 128)
shr7 (negsuc n) = negsuc (n / 128)

abbrev pub byte_of : ℤ → ℕ
byte_of (pos n) = n % 256
byte_of (negsuc n) = 255 - n % 256

-- The bytes of a length, on fuel: after one shift at most 25 bits are left, so five rounds do.
pub length_bytes : ℕ → ℤ → List ℕ
length_bytes zero z = byte_of z ∷ []
length_bytes (suc f) (negsuc n) = byte_of (negsuc n) ∷ []
length_bytes (suc f) (pos n) =
    let rest = length_bytes f (shr7 (int32 n)) in
    if ltb 127 n then (128 + n % 128) ∷ rest else byte_of (pos n) ∷ []

pub delimit : List ℕ → List ℕ
delimit chunk = length_bytes 5 (pos (length chunk)) ++ chunk
