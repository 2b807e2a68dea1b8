-- ===== src/Vnc/Connection/Auth.antt =====
-- Servers of connection.js that do not offer the type "none".
use mercury_farm.Base.{
  ℕ, zero, suc, ◌≡◌, refl, Bool, true, false, Option, none, some, List, [], ◌∷◌, ◌++◌, arith, ◌==◌,
  get_or, if-cases, Bool-cases, inl, inr, ==_iff, ap,
}
use mercury_farm.Vnc.Connection.Types.{
  State, need_client_version, need_client_security, need_client_message, Effect, Vnc, Options,
  append, consume, Security, Version, security_none, user_activity, need_client_init,
  need_set_pixel_format, need_fb_update_request, need_pointer_event, failed, ended,
}
use mercury_farm.Vnc.Connection.Messages.{parse_version, parse_security, by_type}
use mercury_farm.Vnc.Connection.Machine.{
  new, Round, waits, goes_on, returns, on_version, on_method, on_security, on_message, on_chunk,
  on_consumed, round, follow, rounds, full_rounds, unguarded_read, Conn, read, Event, arrives,
  auth_ok, auth_fails, on_event, run, needs, rejected,
}
use mercury_farm.Vnc.Connection.Requests.{authed, is_authenticated, authed-append, fresh}

-- What reading keeps: nobody is authenticated, and the offer stays.
abbrev IsUnauthed : Vnc → Type 0
IsUnauthed s = (by_type security_none s.options.security ≡ none) × (authed s.effects ≡ false)

abbrev Round-IsUnauthed : Round → Type 0
Round-IsUnauthed waits = Unit
Round-IsUnauthed (goes_on s) = IsUnauthed s
Round-IsUnauthed (returns s) = IsUnauthed s

unauthed_emit :
    (es : List Effect) (e : Effect)
    → is_authenticated e ≡ false
    → authed es ≡ false
    → authed (es ++ e ∷ []) ≡ false
unauthed_emit es e h g = ground (arith, authed-append es e)

unauthed_close :
    (es : List Effect) (e : Effect)
    → is_authenticated e ≡ false
    → authed es ≡ false
    → authed ((es ++ e ∷ []) ++ ended ∷ []) ≡ false
unauthed_close es e h g = unauthed_emit (es ++ e ∷ []) ended refl (unauthed_emit es e h g)

on_method-IsUnauthed :
    (s : Vnc) (t : ℕ) (m : Option Security)
    → by_type t s.options.security ≡ m
    → IsUnauthed s
    → Round-IsUnauthed (on_method s t m)
unfolding on_method
on_method-IsUnauthed s t none e (o, g) = (o, unauthed_close s.effects _ refl g)
on_method-IsUnauthed s t (some m) e (o, g) =
    if-cases Round-IsUnauthed (t == 1) (λ h. absurd (offered ((==_iff t 1).0 h)))
      (λ _. (o, unauthed_emit s.effects _ refl g))
  where
    offered : t ≡ 1 → ⊥
    offered h = cc (ap (λ k. by_type k s.options.security) h, e, o)

on_security-IsUnauthed :
    (s : Vnc) (t : Option ℕ) → IsUnauthed s → Round-IsUnauthed (on_security s t)
unfolding on_security
on_security-IsUnauthed s none (o, g) = (o, unauthed_close s.effects _ refl g)
on_security-IsUnauthed s (some t) g = on_method-IsUnauthed _ t (by_type t s.options.security) refl g

on_message-IsUnauthed : (s : Vnc) (t : ℕ) → IsUnauthed s → Round-IsUnauthed (on_message s t)
unfolding on_message
on_message-IsUnauthed s t (o, g) =
    if-cases Round-IsUnauthed (t == 0) (λ _. (o, g))
      λ _.
        if-cases Round-IsUnauthed (t == 2) (λ _. (o, g))
          λ _.
            if-cases Round-IsUnauthed (t == 3) (λ _. (o, g))
              λ _.
                if-cases Round-IsUnauthed (t == 4) (λ _. (o, active))
                  λ _.
                    if-cases Round-IsUnauthed (t == 5) (λ _. (o, active))
                      λ _.
                        if-cases Round-IsUnauthed (t == 6) (λ _. (o, active))
                          λ _. (o, unauthed_close s.effects failed refl g)
  where
    active : authed (s.effects ++ user_activity ∷ []) ≡ false
    active = unauthed_emit s.effects user_activity refl g

on_chunk-IsUnauthed :
    (s : Vnc) (st : State) (c : List ℕ) → IsUnauthed s → Round-IsUnauthed (on_chunk s st c)
unfolding on_chunk on_version
on_chunk-IsUnauthed s need_client_version c (o, g) = go (parse_version c)
  where
    go : (v : Option Version) → Round-IsUnauthed (on_version s v)
    go none = (o, unauthed_emit s.effects ended refl g)
    go (some v) = (o, unauthed_emit s.effects _ refl g)
on_chunk-IsUnauthed s need_client_security c g = on_security-IsUnauthed s (parse_security c) g
on_chunk-IsUnauthed s need_client_init c (o, g) = (o, unauthed_emit s.effects _ refl g)
on_chunk-IsUnauthed s need_client_message c g = on_message-IsUnauthed s (get_or c 0 0) g
on_chunk-IsUnauthed s need_set_pixel_format c (o, g) = (o, unauthed_emit s.effects _ refl g)
on_chunk-IsUnauthed s need_fb_update_request c (o, g) = (o, unauthed_emit s.effects _ refl g)
on_chunk-IsUnauthed s need_pointer_event c (o, g) = (o, unauthed_emit s.effects _ refl g)
on_chunk-IsUnauthed s _ c g = g

on_consumed-IsUnauthed :
    (s : Vnc) (taken : Option (List ℕ × Option (List ℕ)))
    → IsUnauthed s
    → Round-IsUnauthed (on_consumed s taken)
unfolding on_consumed
on_consumed-IsUnauthed s none g = tt
on_consumed-IsUnauthed s (some (c, rest)) g =
    on_chunk-IsUnauthed (record s { buffer = rest }) s.state c g

follow-IsUnauthed :
    (loop : Vnc → Vnc × Bool) (s : Vnc) (r : Round)
    → ((s' : Vnc) → IsUnauthed s' → IsUnauthed (loop s').0)
    → IsUnauthed s
    → Round-IsUnauthed r
    → IsUnauthed (follow loop s r).0
unfolding follow
follow-IsUnauthed loop s waits ih g h = g
follow-IsUnauthed loop s (goes_on s') ih g h = ih s' h
follow-IsUnauthed loop s (returns s') ih g h = h

rounds-IsUnauthed : (n : ℕ) (s : Vnc) → IsUnauthed s → IsUnauthed (rounds n s).0
unfolding rounds round
rounds-IsUnauthed zero s g = g
rounds-IsUnauthed (suc n) s g =
    follow-IsUnauthed (rounds n) s (round s) (rounds-IsUnauthed n) g
      (on_consumed-IsUnauthed s (consume (needs s s.state) s.buffer) g)

unguarded_read-IsUnauthed :
    (cs : List (List ℕ)) (s : Vnc) → IsUnauthed s → IsUnauthed (unguarded_read cs s).0
unfolding unguarded_read append
unguarded_read-IsUnauthed [] s g = g
unguarded_read-IsUnauthed (c ∷ cs) s g =
    let s0 : Vnc = append c s in
    let g' : IsUnauthed (rounds (full_rounds s0) s0).0 = rounds-IsUnauthed (full_rounds s0) s0 g in
    if-cases (λ (r : Vnc × List (List ℕ)). IsUnauthed r.0) (rounds (full_rounds s0) s0).1 (λ _. g')
      (λ _. unguarded_read-IsUnauthed cs (rounds (full_rounds s0) s0).0 g')

read-IsUnauthed : (c : Conn) → IsUnauthed c.vnc → IsUnauthed (read c).vnc
unfolding read
read-IsUnauthed c g =
    if-cases (λ (r : Conn). IsUnauthed r.vnc) c.blocking (λ _. g)
      (λ _. unguarded_read-IsUnauthed c.unread c.vnc g)

abbrev pub accepts : List Event → Bool
accepts [] = false
accepts (auth_ok ∷ es) = true
accepts (_ ∷ es) = accepts es

run-IsUnauthed :
    (es : List Event) (c : Conn) → accepts es ≡ false → IsUnauthed c.vnc → IsUnauthed (run es c).vnc
unfolding run on_event
run-IsUnauthed [] c h g = g
run-IsUnauthed (auth_ok ∷ es) c h g = cc
run-IsUnauthed (arrives chunk ∷ es) c h g = run-IsUnauthed es _ h (read-IsUnauthed _ g)
run-IsUnauthed (auth_fails ∷ es) c h (o, g) = run-IsUnauthed es _ h (
    if-cases (λ (r : Conn). IsUnauthed r.vnc) c.blocking
      (λ _.
        read-IsUnauthed (record c { vnc = rejected c.vnc }) (o, unauthed_close c.effects _ refl g))
      (λ _. (o, g)))

-- If the server does not offer the security type "none", then a connection on which
-- `authenticated` was ever emitted has had an accepted check, whatever bytes the client sent.
pub authenticated_needs_check :
    (o : Options) (es : List Event)
    → by_type security_none o.security ≡ none
    → authed (run es (fresh o)).effects ≡ true
    → accepts es ≡ true
unfolding new
authenticated_needs_check o es offer h = elim (Bool-cases (accepts es)) [
  | inl e ↦ e
  | inr e ↦ cc ((run-IsUnauthed es (fresh o) e (offer, refl)).1)
]
