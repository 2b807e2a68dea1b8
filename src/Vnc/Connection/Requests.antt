-- ===== src/Vnc/Connection/Requests.antt =====
-- What a client of connection.js brings about before and after it is authenticated.
use mercury_farm.Base.{
  ℕ, zero, suc, ◌≡◌, refl, Bool, true, false, ◌&&◌, ◌||◌, Option, none, some, List, [], ◌∷◌, ◌++◌,
  arith, ◌==◌, get_or, if-cases,
}
use mercury_farm.Vnc.Connection.Types.{
  State, need_client_version, need_client_message, need_set_pixel_format, need_fb_update_request,
  need_pointer_event, need_client_security, need_client_init, need_client_vnc_auth, Effect, wrote,
  ended, failed, authenticated, Vnc, Options, append, consume, Security, Version,
}
use mercury_farm.Vnc.Connection.Messages.{
  parse_version, parse_security, by_type, result_ok, result_fail,
}
use mercury_farm.Vnc.Connection.Machine.{
  new, Round, waits, goes_on, returns, on_version, on_method, on_security, on_message, on_chunk,
  on_consumed, round, follow, rounds, full_rounds, unguarded_read, Conn, read, Event, arrives,
  auth_ok, auth_fails, on_event, run, needs, accepted, rejected, auth_failure,
}

-- effects that do not stem from a message of the client
abbrev pub is_handshake : Effect → Bool
is_handshake (wrote _) = true
is_handshake authenticated = true
is_handshake failed = true
is_handshake ended = true
is_handshake _ = false

abbrev pub is_authenticated : Effect → Bool
is_authenticated authenticated = true
is_authenticated _ = false

abbrev pub authed : List Effect → Bool
authed [] = false
authed (e ∷ es) = is_authenticated e || authed es

-- Each effect of a message of the client comes behind `authenticated`; `seen` tells whether that was seen.
abbrev pub guarded : Bool → List Effect → Bool
guarded seen [] = true
guarded seen (e ∷ es) = (is_handshake e || seen) && guarded (seen || is_authenticated e) es

pub authed-append :
    (es : List Effect) (e : Effect) → authed (es ++ e ∷ []) ≡ (authed es || is_authenticated e)
authed-append [] e = ground arith
authed-append (x ∷ es) e = ground (arith, authed-append es e)

guarded-append :
    (seen : Bool) (es : List Effect) (e : Effect)
    → guarded seen (es ++ e ∷ []) ≡ (guarded seen es && (is_handshake e || (seen || authed es)))
guarded-append seen [] e = ground arith
guarded-append seen (x ∷ es) e = ground (arith, guarded-append (seen || is_authenticated x) es e)

-- the states behind the security handshake
abbrev pub is_past : State → Bool
is_past need_client_version = false
is_past need_client_security = false
is_past need_client_vnc_auth = false
is_past _ = true

pub record Guarded (st : State) (es : List Effect) : Type 0 where
  pub order : guarded false es ≡ true
  pub past : is_past st ≡ true → authed es ≡ true

abbrev pub IsGuarded : Vnc → Type 0
IsGuarded s = Guarded s.state s.effects

abbrev Round-IsGuarded : Round → Type 0
Round-IsGuarded waits = Unit
Round-IsGuarded (goes_on s) = IsGuarded s
Round-IsGuarded (returns s) = IsGuarded s

-- a step within the handshake, or behind it
Guarded-move :
    {st : State} (st' : State) {es : List Effect}
    → (is_past st' ≡ true → is_past st ≡ true)
    → Guarded st es
    → Guarded st' es
Guarded-move st' h g = record { order = g.order; past = λ p. g.past (h p) }

Guarded-emit :
    {st : State} {es : List Effect} (e : Effect)
    → (is_handshake e || is_past st) ≡ true
    → Guarded st es
    → Guarded st (es ++ e ∷ [])
Guarded-emit {st} {es} e h g = record {
  order = ground (arith, guarded-append false es e, g.order, g.past);
  past = λ p. ground (arith, authed-append es e, g.past p);
}

Guarded-accept :
    {st : State} (st' : State) {es : List Effect}
    → Guarded st es
    → Guarded st' (es ++ authenticated ∷ [])
Guarded-accept st' {es} g = record {
  order = ground (arith, guarded-append false es authenticated, g.order);
  past = λ p. ground (arith, authed-append es authenticated);
}

on_method-IsGuarded :
    (s : Vnc) (t : ℕ) (m : Option Security) → IsGuarded s → Round-IsGuarded (on_method s t m)
unfolding on_method
on_method-IsGuarded s t none g = Guarded-emit ended refl (Guarded-emit _ refl g)
on_method-IsGuarded s t (some m) g =
    if-cases Round-IsGuarded (t == 1) (λ _. Guarded-accept need_client_init (Guarded-emit _ refl g))
      (λ _. Guarded-move need_client_vnc_auth (λ p. cc) (Guarded-emit (wrote _) refl g))

on_security-IsGuarded : (s : Vnc) (t : Option ℕ) → IsGuarded s → Round-IsGuarded (on_security s t)
unfolding on_security
on_security-IsGuarded s none g = Guarded-emit ended refl (Guarded-emit _ refl g)
on_security-IsGuarded s (some t) g = on_method-IsGuarded _ t (by_type t s.options.security) g

on_version-IsGuarded :
    (s : Vnc) (v : Option Version) → IsGuarded s → Round-IsGuarded (on_version s v)
unfolding on_version
on_version-IsGuarded s none g = Guarded-emit _ refl g
on_version-IsGuarded s (some v) g =
    Guarded-move need_client_security (λ p. cc) (Guarded-emit _ refl g)

-- what `user_activity` and the like need
open_emit :
    (s : Vnc) (st' : State) (e : Effect)
    → is_past s.state ≡ true
    → IsGuarded s
    → Guarded st' (s.effects ++ e ∷ [])
open_emit s st' e p g = Guarded-move st' (λ _. p) (Guarded-emit e (ground arith) g)

on_message-IsGuarded :
    (s : Vnc) (t : ℕ) → is_past s.state ≡ true → IsGuarded s → Round-IsGuarded (on_message s t)
unfolding on_message
on_message-IsGuarded s t p g =
    if-cases Round-IsGuarded (t == 0) (λ _. Guarded-move _ (λ _. p) g)
      λ _.
        if-cases Round-IsGuarded (t == 2) (λ _. Guarded-move _ (λ _. p) g)
          λ _.
            if-cases Round-IsGuarded (t == 3) (λ _. Guarded-move _ (λ _. p) g)
              λ _.
                if-cases Round-IsGuarded (t == 4) (λ _. open_emit s _ _ p g)
                  λ _.
                    if-cases Round-IsGuarded (t == 5) (λ _. open_emit s _ _ p g)
                      λ _.
                        if-cases Round-IsGuarded (t == 6) (λ _. open_emit s _ _ p g)
                          λ _. Guarded-emit ended refl (Guarded-emit failed refl g)

on_chunk-IsGuarded :
    (s : Vnc) (st : State) (c : List ℕ)
    → s.state ≡ st
    → IsGuarded s
    → Round-IsGuarded (on_chunk s st c)
unfolding on_chunk
on_chunk-IsGuarded s need_client_version c e g = on_version-IsGuarded s (parse_version c) g
on_chunk-IsGuarded s need_client_security c e g = on_security-IsGuarded s (parse_security c) g
on_chunk-IsGuarded s need_client_vnc_auth c e g = g
on_chunk-IsGuarded s need_client_init c e g =
    Guarded-move need_client_message (λ _. rw e) (Guarded-emit _ refl g)
on_chunk-IsGuarded s need_client_message c e g = on_message-IsGuarded s (get_or c 0 0) (rw e) g
on_chunk-IsGuarded s need_set_pixel_format c e g = open_emit s _ _ (rw e) g
on_chunk-IsGuarded s need_fb_update_request c e g = open_emit s _ _ (rw e) g
on_chunk-IsGuarded s need_pointer_event c e g = open_emit s _ _ (rw e) g
on_chunk-IsGuarded s _ c e g = Guarded-move _ (λ _. rw e) g

on_consumed-IsGuarded :
    (s : Vnc) (taken : Option (List ℕ × Option (List ℕ)))
    → IsGuarded s
    → Round-IsGuarded (on_consumed s taken)
unfolding on_consumed
on_consumed-IsGuarded s none g = tt
on_consumed-IsGuarded s (some (c, rest)) g =
    on_chunk-IsGuarded (record s { buffer = rest }) s.state c refl g

round-IsGuarded : (s : Vnc) → IsGuarded s → Round-IsGuarded (round s)
unfolding round
round-IsGuarded s g = on_consumed-IsGuarded s (consume (needs s s.state) s.buffer) g

follow-IsGuarded :
    (loop : Vnc → Vnc × Bool) (s : Vnc) (r : Round)
    → ((s' : Vnc) → IsGuarded s' → IsGuarded (loop s').0)
    → IsGuarded s
    → Round-IsGuarded r
    → IsGuarded (follow loop s r).0
unfolding follow
follow-IsGuarded loop s waits ih g h = g
follow-IsGuarded loop s (goes_on s') ih g h = ih s' h
follow-IsGuarded loop s (returns s') ih g h = h

rounds-IsGuarded : (n : ℕ) (s : Vnc) → IsGuarded s → IsGuarded (rounds n s).0
unfolding rounds
rounds-IsGuarded zero s g = g
rounds-IsGuarded (suc n) s g =
    follow-IsGuarded (rounds n) s (round s) (rounds-IsGuarded n) g (round-IsGuarded s g)

unguarded_read-IsGuarded :
    (cs : List (List ℕ)) (s : Vnc) → IsGuarded s → IsGuarded (unguarded_read cs s).0
unfolding unguarded_read append
unguarded_read-IsGuarded [] s g = g
unguarded_read-IsGuarded (c ∷ cs) s g =
    let s0 : Vnc = append c s in
    let g' : IsGuarded (rounds (full_rounds s0) s0).0 = rounds-IsGuarded (full_rounds s0) s0 g in
    if-cases (λ (r : Vnc × List (List ℕ)). IsGuarded r.0) (rounds (full_rounds s0) s0).1 (λ _. g')
      (λ _. unguarded_read-IsGuarded cs (rounds (full_rounds s0) s0).0 g')

read-IsGuarded : (c : Conn) → IsGuarded c.vnc → IsGuarded (read c).vnc
unfolding read
read-IsGuarded c g =
    if-cases (λ (r : Conn). IsGuarded r.vnc) c.blocking (λ _. g)
      (λ _. unguarded_read-IsGuarded c.unread c.vnc g)

on_event-IsGuarded : (e : Event) (c : Conn) → IsGuarded c.vnc → IsGuarded (on_event e c).vnc
unfolding on_event
on_event-IsGuarded (arrives chunk) c g = read-IsGuarded _ g
on_event-IsGuarded auth_ok c g =
    if-cases (λ (r : Conn). IsGuarded r.vnc) c.blocking
      (λ _.
        read-IsGuarded (record c { vnc = accepted c.vnc })
          (Guarded-accept need_client_init (Guarded-emit (wrote result_ok) refl g)))
      (λ _. g)
on_event-IsGuarded auth_fails c g =
    if-cases (λ (r : Conn). IsGuarded r.vnc) c.blocking
      (λ _.
        read-IsGuarded (record c { vnc = rejected c.vnc })
          (Guarded-emit ended refl (Guarded-emit (wrote (result_fail auth_failure)) refl g)))
      (λ _. g)

run-IsGuarded : (es : List Event) (c : Conn) → IsGuarded c.vnc → IsGuarded (run es c).vnc
unfolding run
run-IsGuarded [] c g = g
run-IsGuarded (e ∷ es) c g = run-IsGuarded es (on_event e c) (on_event-IsGuarded e c g)

abbrev pub fresh : Options → Conn
fresh o = record { vnc = new o; unread = [] }

-- Whatever bytes arrive in whatever chunks, and however the checks turn out: every pointer event,
-- activity, format change and update request comes behind `authenticated`.
pub run-guarded : (o : Options) (es : List Event) → guarded false (run es (fresh o)).effects ≡ true
unfolding new
run-guarded o es = (run-IsGuarded es (fresh o) (record { order = refl; past = λ p. cc })).order
