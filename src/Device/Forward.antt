-- ===== src/Device/Forward.antt =====
-- lib/units/device/plugins/forward/util: the writer and the reader of packets, which carry the bytes
-- of several connections on one. A byte is a number.
pub mod Packets
pub mod Pieces
pub mod Cuts
pub mod RoundTrip
pub mod Bounds
pub mod ShortChunks
mod Tests
use mercury_farm.Base.{
  ℕ, zero, suc, ◌+◌, ◌-◌, ◌*◌, ◌/◌, ◌%◌, min, Bool, true, false, Option, none, some, List, [], ◌∷◌,
  ◌++◌, leb, ltb, ◌==◌, if◌then◌else◌, length, take, drop, replicate,
}

abbrev pub header_size : ℕ
header_size = 4

abbrev pub max_packet_size : ℕ
max_packet_size = 65535

-- `writeUInt16LE`, of less than 65536
abbrev pub le16 : ℕ → List ℕ
le16 n = n % 256 ∷ n / 256 % 256 ∷ []

abbrev pub header : ℕ → ℕ → List ℕ
header target size = le16 target ++ le16 size

-- The writer's `_transform`: what it pushes, on a round of fuel for each packet
unfoldable pub write : ℕ → ℕ → List ℕ → List (List ℕ)
write target zero chunk = []
write target (suc fuel) chunk =
    let size = min max_packet_size (length chunk) in
    let rest = write target fuel (drop size chunk) in
    header target size ∷ take size chunk ∷ (if length (drop size chunk) == 0 then [] else rest)

unfoldable pub transform_write : ℕ → List ℕ → List (List ℕ)
transform_write target chunk = write target (suc (length chunk)) chunk

-- `_flush`
unfoldable pub flush : ℕ → List ℕ
flush target = header target 0

-- `_needLength`: below 0, the bytes of the header that are missing, or those of the packet
pub data Need : Type 0 where
  of_header : ℕ → Need
  of_packet : ℕ → Need

-- the target, and the bytes or a fin
abbrev pub Packet : Type 0
Packet = ℕ × Option (List ℕ)

pub record Reader : Type 0 where
  pub header_bytes : List ℕ
  pub need : Need
  pub target : ℕ
  pub emitted : List Packet

unfoldable pub new : Reader
new = record {
  header_bytes = replicate header_size 0;
  need = of_header header_size;
  target = 0;
  emitted = [];
}

-- `readUInt16LE` of the four bytes
unfoldable pub u16_at : ℕ → List ℕ → ℕ
u16_at zero (a ∷ b ∷ bytes) = a + 256 * b
u16_at zero (a ∷ []) = a
u16_at zero [] = 0
u16_at (suc i) (a ∷ bytes) = u16_at i bytes
u16_at (suc i) [] = 0

-- `chunk.copy(target, start)`: as many bytes as there are, and as have room
unfoldable pub copy : ℕ → List ℕ → List ℕ → List ℕ
copy start [] bytes = []
copy zero (a ∷ into) [] = a ∷ into
copy zero (a ∷ into) (b ∷ bytes) = b ∷ copy zero into bytes
copy (suc start) (a ∷ into) bytes = a ∷ copy start into bytes

abbrev pub emit : Packet → Reader → Reader
emit packet s = record s { emitted = s.emitted ++ packet ∷ [] }

-- with a whole header
unfoldable pub headed_at : ℕ → ℕ → List ℕ → Reader → Reader
headed_at target need bytes s =
    let read : Reader = record s { header_bytes = bytes; target = target; need = of_packet need } in
    if need == 0 then record (emit (target, none) read) { need = of_header header_size } else read

abbrev pub headed : List ℕ → Reader → Reader
headed bytes s = headed_at (u16_at 0 bytes) (u16_at 2 bytes) bytes s

-- one round of the loop, on what is left of a chunk of a size: the reader, and what is then left
unfoldable pub round : ℕ → List ℕ → Need → Reader → Reader × List ℕ
round size bytes (of_header n) s =
    let copied = copy (header_size - n) s.header_bytes (take n bytes) in
    if ltb size n then (record s { header_bytes = copied }, []) else (headed copied s, drop n bytes)
round size bytes (of_packet n) s =
    if leb n (length bytes)
    then (
      record (emit (s.target, some (take n bytes)) s) { need = of_header header_size },
      drop n bytes,
    )
    else (record (emit (s.target, some bytes) s) { need = of_packet (n - length bytes) }, [])

unfoldable pub rounds : ℕ → ℕ → List ℕ → Reader → Reader
rounds zero size bytes s = s
rounds (suc fuel) size [] s = s
rounds (suc fuel) size (b ∷ bytes) s =
    let next = round size (b ∷ bytes) s.need s in rounds fuel size next.1 next.0

-- The reader's `_transform`. A round takes a byte at least.
unfoldable pub transform_read : List ℕ → Reader → Reader
transform_read chunk s = rounds (length chunk) (length chunk) chunk s

unfoldable pub run : List (List ℕ) → Reader → Reader
run [] s = s
run (chunk ∷ chunks) s = run chunks (transform_read chunk s)
