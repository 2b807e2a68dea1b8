-- ===== src/Vnc/Connection/Machine.antt =====
-- The constructor, one round of `_unguardedRead` for each state, its loops, and the events that
-- reach a connection.
use mercury_farm.Base.{
  ℕ, zero, suc, ◌+◌, ◌*◌, Bool, true, false, Option, none, some, List, [], ◌∷◌, ◌++◌, ◌==◌, length,
  get_or, drop, if◌then◌else◌,
}
use mercury_farm.Base.Int.{ℤ, int32}
use mercury_farm.Vnc.Connection.Types.{
  PixelFormat, State, need_client_version, need_client_security, need_client_init,
  need_client_vnc_auth, need_client_message, need_set_pixel_format, need_set_encodings,
  need_set_encodings_value, need_fb_update_request, need_key_event, need_pointer_event,
  need_client_cut_text, need_client_cut_text_value, Version, v3_008, Security, security_none,
  Options, authenticated, user_activity, format_change, fb_update_request, pointer, Vnc, emit,
  write, close, error, change_state, append, consume,
}
use mercury_farm.Vnc.Connection.Messages.{
  parse_version, parse_security, by_type, server_version, supported_security, result_ok,
  result_fail, server_pixel_format, server_init,
}

-- `new VncConnection(conn, options)`, up to its first `_read`
unfoldable pub new : Options → Vnc
new o = write (server_version v3_008) (record {
  options = o;
  state = need_client_version;
  buffer = none;
  server_width = o.width;
  server_height = o.height;
  client_version = none;
  client_security = none;
  client_share = 0;
  client_pixel_format = server_pixel_format o.big_endian;
  client_encoding_count = 0;
  client_encodings = [];
  client_cut_text_length = 0;
  blocking = false;
  effects = [];
})

abbrev byte : List ℕ → ℕ → ℕ
byte c i = get_or c i 0

abbrev u16 : List ℕ → ℕ → ℕ
u16 c i = byte c i * 256 + byte c (i + 1)

abbrev u32 : List ℕ → ℕ → ℕ
u32 c i = u16 c i * 65536 + u16 c (i + 2)

-- `readInt32BE` from `lo` on, for as many as are left
abbrev read_encodings : ℕ → List ℕ → List ℤ
read_encodings zero c = []
read_encodings (suc n) c = int32 (u32 c 0) ∷ read_encodings n (drop 4 c)

-- One round of the inner loop: the bytes have not all come, go on, or leave the function.
pub data Round : Type 0 where
  waits : Round
  goes_on : Vnc → Round
  returns : Vnc → Round

-- How many bytes a state waits for.
unfoldable pub needs : Vnc → State → ℕ
needs s need_client_version = 12
needs s need_client_security = 1
needs s need_client_init = 1
needs s need_client_vnc_auth = 16
needs s need_client_message = 1
needs s need_set_pixel_format = 19
needs s need_set_encodings = 3
needs s need_set_encodings_value = 4 * s.client_encoding_count
needs s need_fb_update_request = 9
needs s need_key_event = 7
needs s need_pointer_event = 5
needs s need_client_cut_text = 7
needs s need_client_cut_text_value = s.client_cut_text_length

unfoldable pub on_version : Vnc → Option Version → Round
on_version s none = returns (close (record s { client_version = none }))
on_version s (some v) = goes_on (
    change_state need_client_security
      (write (supported_security s.options.security) (record s { client_version = some v })))

abbrev unimplemented : List ℕ
unimplemented =
    b'U' ∷ b'n' ∷ b'i' ∷ b'm' ∷ b'p' ∷ b'l' ∷ b'e' ∷ b'm' ∷ b'e' ∷ b'n' ∷ b't' ∷ b'e' ∷ b'd' ∷ b' '
    ∷ b's' ∷ b'e' ∷ b'c' ∷ b'u' ∷ b'r' ∷ b'i' ∷ b't' ∷ b'y' ∷ b' ' ∷ b't' ∷ b'y' ∷ b'p' ∷ b'e' ∷ []

abbrev unsupported : List ℕ
unsupported =
    b'U' ∷ b'n' ∷ b's' ∷ b'u' ∷ b'p' ∷ b'p' ∷ b'o' ∷ b'r' ∷ b't' ∷ b'e' ∷ b'd' ∷ b' ' ∷ b's' ∷ b'e'
    ∷ b'c' ∷ b'u' ∷ b'r' ∷ b'i' ∷ b't' ∷ b'y' ∷ b' ' ∷ b't' ∷ b'y' ∷ b'p' ∷ b'e' ∷ []

abbrev pub auth_failure : List ℕ
auth_failure =
    b'A' ∷ b'u' ∷ b't' ∷ b'h' ∷ b'e' ∷ b'n' ∷ b't' ∷ b'i' ∷ b'c' ∷ b'a' ∷ b't' ∷ b'i' ∷ b'o' ∷ b'n'
    ∷ b' ' ∷ b'f' ∷ b'a' ∷ b'i' ∷ b'l' ∷ b'u' ∷ b'r' ∷ b'e' ∷ []

-- A supported type: none is accepted at once and leaves the function, VNC sends the challenge.
unfoldable pub on_supported : Vnc → ℕ → Security → Round
on_supported s t method =
    if t == security_none
    then returns (emit authenticated (write result_ok (change_state need_client_init s)))
    else goes_on (change_state need_client_vnc_auth (write method.challenge s))

unfoldable pub on_method : Vnc → ℕ → Option Security → Round
unfolding on_supported
on_method s t none = returns (close (write (result_fail unsupported) s))
on_method s t (some method) = on_supported s t method

unfoldable pub on_security : Vnc → Option ℕ → Round
unfolding on_method
on_security s none =
    returns (close (write (result_fail unimplemented) (record s { client_security = none })))
on_security s (some t) =
    on_method (record s { client_security = some t }) t (by_type t s.options.security)

-- the inner `switch` on the type of a message
unfoldable pub on_message : Vnc → ℕ → Round
on_message s t =
    if t == 0
    then goes_on (change_state need_set_pixel_format s)
    else if t == 2
    then goes_on (change_state need_set_encodings s)
    else if t == 3
    then goes_on (change_state need_fb_update_request s)
    else if t == 4
    then goes_on (change_state need_key_event (emit user_activity s))
    else if t == 5
    then goes_on (change_state need_pointer_event (emit user_activity s))
    else if t == 6
    then goes_on (change_state need_client_cut_text (emit user_activity s))
    else returns (error s)

abbrev format_of : List ℕ → PixelFormat
format_of c = record {
  bits_per_pixel = byte c 3;
  depth = byte c 4;
  big_endian_flag = byte c 5;
  true_color_flag = byte c 6;
  red_max = u16 c 7;
  green_max = u16 c 9;
  blue_max = u16 c 11;
  red_shift = byte c 13;
  green_shift = byte c 14;
  blue_shift = byte c 15;
}

-- The outer `switch`, once the bytes `c` have come.
unfoldable pub on_chunk : Vnc → State → List ℕ → Round
unfolding on_version on_security on_message
on_chunk s need_client_version c = on_version s (parse_version c)
on_chunk s need_client_security c = on_security s (parse_security c)
-- `_auth`: the check runs elsewhere, and its outcome is an event
on_chunk s need_client_vnc_auth c = returns (record s { blocking = true })
on_chunk s need_client_init c =
    let s' = record s { client_share = byte c 0 } in
    goes_on (change_state need_client_message (write (server_init s') s'))
on_chunk s need_client_message c = on_message s (byte c 0)
on_chunk s need_set_pixel_format c = goes_on (
    change_state need_client_message
      (emit (format_change (format_of c)) (record s { client_pixel_format = format_of c })))
on_chunk s need_set_encodings c =
    goes_on (change_state need_set_encodings_value (record s { client_encoding_count = u16 c 1 }))
on_chunk s need_set_encodings_value c = goes_on (
    change_state need_client_message
      (record s { client_encodings = read_encodings s.client_encoding_count c }))
on_chunk s need_fb_update_request c = goes_on (
    change_state need_client_message
      (emit (fb_update_request (byte c 0) (u16 c 1) (u16 c 3) (u16 c 5) (u16 c 7)) s))
on_chunk s need_key_event c = goes_on (change_state need_client_message s)
on_chunk s need_pointer_event c = goes_on (
    change_state need_client_message
      (emit (pointer (byte c 0) (u16 c 1, s.server_width) (u16 c 3, s.server_height)) s))
on_chunk s need_client_cut_text c =
    goes_on
      (change_state need_client_cut_text_value (record s { client_cut_text_length = u32 c 3 }))
on_chunk s need_client_cut_text_value c = goes_on (change_state need_client_message s)

unfoldable pub on_consumed : Vnc → Option (List ℕ × Option (List ℕ)) → Round
unfolding on_chunk
on_consumed s none = waits
on_consumed s (some (c, rest)) = on_chunk (record s { buffer = rest }) s.state c

unfoldable pub round : Vnc → Round
unfolding on_consumed needs
round s = on_consumed s (consume (needs s s.state) s.buffer)

-- What comes after a round: true stands for the return from the function.
unfoldable pub follow : (Vnc → Vnc × Bool) → Vnc → Round → Vnc × Bool
follow loop s waits = (s, false)
follow loop s (goes_on s') = loop s'
follow loop s (returns s') = (s', true)

-- The inner loop, on fuel; `full_rounds` is enough.
unfoldable pub rounds : ℕ → Vnc → Vnc × Bool
unfolding follow
rounds zero s = (s, false)
rounds (suc n) s = follow (rounds n) s (round s)

abbrev pub buffered : Vnc → ℕ
buffered s = elim s.buffer [ none ↦ 0 | some b ↦ length b ]

abbrev pub full_rounds : Vnc → ℕ
full_rounds s = 2 * buffered s + 2

-- `_unguardedRead` over what `conn.read()` gives; the chunks after a return stay unread.
unfoldable pub unguarded_read : List (List ℕ) → Vnc → Vnc × List (List ℕ)
unguarded_read [] s = (s, [])
unguarded_read (chunk ∷ chunks) s =
    let s0 = append chunk s in
    let (s', left) = rounds (full_rounds s0) s0 in
    let rest = unguarded_read chunks s' in if left then (s', chunks) else rest

-- A connection with the chunks that its socket holds.
pub record Conn : Type 0 where
  pub vnc : Vnc
  pub open vnc use *
  pub unread : List (List ℕ)

unfoldable pub read : Conn → Conn
read c = if c.blocking then c else record {
  vnc = (unguarded_read c.unread c.vnc).0;
  unread = (unguarded_read c.unread c.vnc).1;
}

pub data Event : Type 0 where
  arrives : List ℕ → Event
  auth_ok auth_fails : Event

-- the outcomes of `_auth`
abbrev pub accepted : Vnc → Vnc
accepted s =
    emit authenticated
      (write result_ok (change_state need_client_init (record s { blocking = false })))

abbrev pub rejected : Vnc → Vnc
rejected s = close (write (result_fail auth_failure) (record s { blocking = false }))

-- A check that is under way holds back the reads until it has settled.
unfoldable pub on_event : Event → Conn → Conn
unfolding read
on_event (arrives chunk) c = read (record c { unread = c.unread ++ chunk ∷ [] })
on_event auth_ok c = if c.blocking then read (record c { vnc = accepted c.vnc }) else c
on_event auth_fails c = if c.blocking then read (record c { vnc = rejected c.vnc }) else c

unfoldable pub run : List Event → Conn → Conn
run [] c = c
run (e ∷ es) c = run es (on_event e c)
