-- ===== src/Vnc/Connection/Messages.antt =====
-- What the server writes, and how it reads a version and a security type.
use mercury_farm.Base.{
  ℕ, ◌%◌, Bool, true, false, ◌||◌, ◌&&◌, Option, none, some, List, [], ◌∷◌, ◌++◌, ◌==◌, map,
  if◌then◌else◌, length,
}
use mercury_farm.Vnc.Connection.Types.{
  PixelFormat, Version, v3_003, v3_007, v3_008, Security, Vnc, write, u16_be, u32_be, security_none,
  security_vnc,
}

abbrev bytes_eq : List ℕ → List ℕ → Bool
bytes_eq [] [] = true
bytes_eq (x ∷ xs) (y ∷ ys) = x == y && bytes_eq xs ys
bytes_eq _ _ = false

-- "RFB 003.00d\n"
abbrev pub version_bytes : ℕ → List ℕ
version_bytes d = b'R' ∷ b'F' ∷ b'B' ∷ b' ' ∷ b'0' ∷ b'0' ∷ b'3' ∷ b'.' ∷ b'0' ∷ b'0' ∷ d ∷ 10 ∷ []

unfoldable pub parse_version : List ℕ → Option Version
parse_version chunk =
    if bytes_eq chunk (version_bytes b'8')
    then some v3_008
    else if bytes_eq chunk (version_bytes b'7')
    then some v3_007
    else if bytes_eq chunk (version_bytes b'3')
    then some v3_003
    else none

unfoldable pub parse_security : List ℕ → Option ℕ
parse_security [] = none
parse_security (t ∷ _) = if t == security_none || t == security_vnc then some t else none

-- `_serverSupportedSecurityByType[type]`: of entries of one type the last one counts.
unfoldable pub by_type : ℕ → List Security → Option Security
by_type t [] = none
by_type t (m ∷ ms) = elim (by_type t ms) [
  | some later ↦ some later
  | none ↦ if m.type == t then some m else none
]

abbrev pub server_version : Version → List ℕ
server_version v3_003 = version_bytes b'3'
server_version v3_007 = version_bytes b'7'
server_version v3_008 = version_bytes b'8'

abbrev pub supported_security : List Security → List ℕ
supported_security ms = (length ms % 256) ∷ map (λ m. m.type % 256) ms

abbrev pub result_ok : List ℕ
result_ok = u32_be 0

abbrev pub result_fail : List ℕ → List ℕ
result_fail reason = u32_be 1 ++ (u32_be (length reason) ++ reason)

-- `_serverPixelFormat`
abbrev pub server_pixel_format : Bool → PixelFormat
server_pixel_format big_endian = record {
  bits_per_pixel = 32;
  depth = 24;
  big_endian_flag = if big_endian then 1 else 0;
  true_color_flag = 1;
  red_max = 255;
  green_max = 255;
  blue_max = 255;
  red_shift = 16;
  green_shift = 8;
  blue_shift = 0;
}

-- `_writeServerInit`; a width or height above 65535 is not written by the source either.
unfoldable pub server_init : Vnc → List ℕ
server_init s =
    let f = server_pixel_format s.options.big_endian in
    u16_be s.server_width
    ++ (u16_be s.server_height
        ++ (f.bits_per_pixel ∷ f.depth ∷ f.big_endian_flag ∷ f.true_color_flag ∷ []
            ++ (u16_be f.red_max
                ++ (u16_be f.green_max
                    ++ (u16_be f.blue_max
                        ++ (f.red_shift ∷ f.green_shift ∷ f.blue_shift ∷ 0 ∷ 0 ∷ 0 ∷ []
                            ++ (u32_be (length s.options.name) ++ s.options.name)))))))

-- the encodings of `writeFramebufferUpdate`; any other one throws after its header is written
pub data Encoding : Type 0 where
  raw : List ℕ → Encoding
  desktop_size : Encoding
  other : List ℕ → Encoding

pub record Rectangle : Type 0 where
  pub x : ℕ
  pub y : ℕ
  pub width : ℕ
  pub height : ℕ
  pub encoding : Encoding

-- the four bytes of the encoding type: 0, -223, or what the caller gave
abbrev encoding_type : Encoding → List ℕ
encoding_type (raw _) = 0 ∷ 0 ∷ 0 ∷ 0 ∷ []
encoding_type desktop_size = 255 ∷ 255 ∷ 255 ∷ 33 ∷ []
encoding_type (other t) = t

write_body : Rectangle → Encoding → Vnc → Vnc × Bool
write_body r (raw bytes) s = (write bytes s, true)
write_body r desktop_size s = (record s { server_width = r.width; server_height = r.height }, true)
write_body r (other t) s = (s, false)

-- one round of `forEach`; false is the throw
write_rectangle : Rectangle → Vnc → Vnc × Bool
unfolding write_body
write_rectangle r s = write_body r r.encoding (
    write
      (u16_be r.x
        ++ (u16_be r.y ++ (u16_be r.width ++ (u16_be r.height ++ encoding_type r.encoding))))
      s)

write_rectangles : List Rectangle → Vnc → Vnc × Bool
write_rectangles [] s = (s, true)
write_rectangles (r ∷ rs) s =
    let (s', ok) = write_rectangle r s in
    elim ok [ true ↦ write_rectangles rs s' | false ↦ (s', false) ]

unfoldable pub write_framebuffer_update : List Rectangle → Vnc → Vnc × Bool
unfolding write_rectangles write_rectangle
write_framebuffer_update rs s = write_rectangles rs (write (0 ∷ 0 ∷ u16_be (length rs)) s)
