-- ===== src/Vnc/Connection/Types.antt =====
-- The state of a connection, its options and its effects.
use mercury_farm.Base.{
  ℕ, ◌/◌, ◌%◌, Bool, Option, none, some, List, [], ◌∷◌, ◌++◌, ◌==◌, ltb, if◌then◌else◌, length,
  take, drop,
}
use mercury_farm.Base.Int.{ℤ}

-- pixelformat.js
pub record PixelFormat : Type 0 where
  pub bits_per_pixel : ℕ
  pub depth : ℕ
  pub big_endian_flag : ℕ
  pub true_color_flag : ℕ
  pub red_max : ℕ
  pub green_max : ℕ
  pub blue_max : ℕ
  pub red_shift : ℕ
  pub green_shift : ℕ
  pub blue_shift : ℕ

-- the values of `State`, by their names
pub data State : Type 0 where
  need_client_version need_client_security need_client_init need_client_vnc_auth : State
  need_client_message need_set_pixel_format need_set_encodings need_set_encodings_value : State
  need_fb_update_request need_key_event need_pointer_event : State
  need_client_cut_text need_client_cut_text_value : State

pub data Version : Type 0 where
  v3_003 v3_007 v3_008 : Version

-- `method.type` and the challenge of one entry of `options.security`
pub record Security : Type 0 where
  pub type : ℕ
  pub challenge : List ℕ

abbrev pub security_none : ℕ
security_none = 1

abbrev pub security_vnc : ℕ
security_vnc = 2

pub record Options : Type 0 where
  pub security : List Security
  pub width : ℕ
  pub height : ℕ
  pub name : List ℕ
  pub big_endian : Bool

pub data Effect : Type 0 where
  wrote : List ℕ → Effect
  authenticated user_activity failed ended : Effect
  format_change : PixelFormat → Effect
  -- incremental, x, y, width, height
  fb_update_request : ℕ → ℕ → ℕ → ℕ → ℕ → Effect
  -- the button mask, and x and y as the numbers sent, over the width and the height of the screen
  pointer : ℕ → ℕ × ℕ → ℕ × ℕ → Effect

pub record Vnc : Type 0 where
  pub options : Options
  pub state : State
  pub buffer : Option (List ℕ)
  pub server_width : ℕ
  pub server_height : ℕ
  pub client_version : Option Version
  pub client_security : Option ℕ
  pub client_share : ℕ
  pub client_pixel_format : PixelFormat
  pub client_encoding_count : ℕ
  pub client_encodings : List ℤ
  pub client_cut_text_length : ℕ
  pub blocking : Bool
  pub effects : List Effect

abbrev pub emit : Effect → Vnc → Vnc
emit e s = record s { effects = s.effects ++ e ∷ [] }

-- `_write`, `end` and `_error`
abbrev pub write : List ℕ → Vnc → Vnc
write chunk s = emit (wrote chunk) s

abbrev pub close : Vnc → Vnc
close s = emit ended s

abbrev pub error : Vnc → Vnc
error s = close (emit failed s)

-- `_changeState`
abbrev pub change_state : State → Vnc → Vnc
change_state st s = record s { state = st }

-- The bytes of a number, high byte first.
abbrev pub u16_be : ℕ → List ℕ
u16_be n = (n / 256 % 256) ∷ (n % 256) ∷ []

abbrev pub u32_be : ℕ → List ℕ
u32_be n = (n / 16777216 % 256) ∷ (n / 65536 % 256) ∷ (n / 256 % 256) ∷ (n % 256) ∷ []

-- `_append`: a null chunk is the end of what the socket holds.
unfoldable pub append : List ℕ → Vnc → Vnc
append chunk s = record s {
  buffer = elim s.buffer [ none ↦ some chunk | some b ↦ some (b ++ chunk) ];
}

-- `_consume` on the buffer: the bytes taken and what is left, or nothing.
unfoldable pub consume : ℕ → Option (List ℕ) → Option (List ℕ × Option (List ℕ))
consume n none = none
consume n (some b) =
    if ltb n (length b)
    then some (take n b, some (drop n b))
    else if n == length b
    then some (b, none)
    else none
