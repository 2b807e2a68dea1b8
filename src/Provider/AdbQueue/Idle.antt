-- ===== src/Provider/AdbQueue/Idle.antt =====
-- Requests that wait, in lib/units/provider/ADBObserver.js, over what comes from the connection.
use mathlib.Core.Path.{subst}
use mercury_farm.Base.{
  ℕ, ◌≡◌, refl, sym, false, not, ◌||◌, Option, none, some, List, [], ◌∷◌, ◌++◌, leb, if-cases,
  length,
}
use mercury_farm.Provider.AdbWire.{
  Framed, incomplete, nan, complete, framed, Reply, waits, fails, okay, unknown, reply,
}
use mercury_farm.Provider.AdbQueue.{
  text, failed, output, Request, Client, settle, process_next_of, process_next, push, shell_request,
  resolve_empty, has_newline, close_after_transport, streamed, answered, okayed, replied, received,
  process_responses,
}

-- requests that have not been written, and whose stream has not started
abbrev pub AllIdle : List Request → Type 0
AllIdle [] = Unit
AllIdle (r ∷ rest) = (r.timer ≡ false) × (r.raw_stream ≡ none) × AllIdle rest

-- all but the first
abbrev pub IdleBehind : List Request → Type 0
IdleBehind [] = Unit
IdleBehind (r ∷ rest) = AllIdle rest

pub behind : (queue : List Request) → AllIdle queue → IdleBehind queue
behind [] h = tt
behind (r ∷ rest) h = h.2

AllIdle-append :
    (queue : List Request) (r : Request)
    → r.timer ≡ false
    → r.raw_stream ≡ none
    → AllIdle queue
    → AllIdle (queue ++ r ∷ [])
AllIdle-append [] r t w h = (t, w, tt)
AllIdle-append (q ∷ queue) r t w h = (h.0, h.1, AllIdle-append queue r t w h.2)

pub IdleBehind-append :
    (queue : List Request) (r : Request)
    → r.timer ≡ false
    → r.raw_stream ≡ none
    → IdleBehind queue
    → IdleBehind (queue ++ r ∷ [])
IdleBehind-append [] r t w h = tt
IdleBehind-append (q ∷ queue) r t w h = AllIdle-append queue r t w h

process_next_of-IdleBehind :
    (queue : List Request) (s : Client)
    → s.queue ≡ queue
    → IdleBehind queue
    → IdleBehind (process_next_of queue s).queue
unfolding process_next_of
process_next_of-IdleBehind [] s e h = subst IdleBehind (sym e) h
process_next_of-IdleBehind (r ∷ rest) s e h =
    if-cases (λ (c : Client). IdleBehind c.queue) (r.timer || not s.is_connected)
      (λ _. subst IdleBehind (sym e) h) (λ _. h)

pub process_next-IdleBehind : (s : Client) → IdleBehind s.queue → IdleBehind (process_next s).queue
unfolding process_next
process_next-IdleBehind s h = process_next_of-IdleBehind s.queue s refl h

streamed-IdleBehind :
    (r : Request) (rest : List Request) (bytes : List ℕ) (s : Client)
    → AllIdle rest
    → IdleBehind (streamed r rest bytes s).queue
unfolding streamed
streamed-IdleBehind r rest bytes s h =
    if-cases (λ (c : Client). IdleBehind c.queue) (has_newline bytes)
      (λ _.
        process_next-IdleBehind
          (close_after_transport (settle r (output bytes) (record s { queue = rest; buffer = [] })))
          (behind rest h))
      (λ _. h)

answered-IdleBehind :
    (f : Framed) (r : Request) (rest : List Request) (buffer : List ℕ) (s : Client)
    → s.queue ≡ r ∷ rest
    → AllIdle rest
    → IdleBehind (answered f r rest buffer s).queue
unfolding answered
answered-IdleBehind incomplete r rest buffer s e h = subst IdleBehind (sym e) h
answered-IdleBehind nan r rest buffer s e h =
    process_next-IdleBehind (settle r (text []) (record s { queue = rest })) (behind rest h)
answered-IdleBehind (complete payload left) r rest buffer s e h =
    process_next-IdleBehind (settle r (text payload) (record s { queue = rest })) (behind rest h)

resolve_empty-IdleBehind :
    (command : Option (List ℕ)) (r : Request) (rest : List Request) (s : Client)
    → AllIdle rest
    → IdleBehind (process_next (resolve_empty command r (record s { queue = rest }))).queue
unfolding resolve_empty
resolve_empty-IdleBehind none r rest s h =
    process_next-IdleBehind (settle r (text []) (record s { queue = rest })) (behind rest h)
resolve_empty-IdleBehind (some command) r rest s h = process_next-IdleBehind _ (
    process_next-IdleBehind (push (shell_request command r.promise) (record s { queue = rest })) (
      behind (rest ++ shell_request command r.promise ∷ []) (
        AllIdle-append rest (shell_request command r.promise) (unfold shell_request in refl)
          (unfold shell_request in refl) h)))

okayed-IdleBehind :
    (r : Request) (rest : List Request) (bytes buffer : List ℕ) (s : Client)
    → s.queue ≡ r ∷ rest
    → AllIdle rest
    → IdleBehind (okayed r rest bytes buffer s).queue
unfolding okayed
okayed-IdleBehind r rest bytes buffer s e h =
    if-cases (λ (c : Client). IdleBehind c.queue) r.is_raw_stream
      (λ _. streamed-IdleBehind r rest bytes s h)
      (λ _.
        if-cases (λ (c : Client). IdleBehind c.queue) r.needs_data
          (λ _. answered-IdleBehind (framed bytes) r rest buffer s e h)
          (λ _. resolve_empty-IdleBehind r.for_device r rest s h))

replied-IdleBehind :
    (a : Reply) (r : Request) (rest : List Request) (buffer : List ℕ) (s : Client)
    → s.queue ≡ r ∷ rest
    → AllIdle rest
    → IdleBehind (replied a r rest buffer s).queue
unfolding replied
replied-IdleBehind waits r rest buffer s e h = subst IdleBehind (sym e) h
replied-IdleBehind unknown r rest buffer s e h = subst IdleBehind (sym e) h
replied-IdleBehind (fails message left) r rest buffer s e h =
    process_next-IdleBehind (settle r (failed message) (record s { queue = rest })) (behind rest h)
replied-IdleBehind (okay bytes) r rest buffer s e h = okayed-IdleBehind r rest bytes buffer s e h

received-IdleBehind :
    (o : Option (List ℕ)) (r : Request) (rest : List Request) (buffer : List ℕ) (s : Client)
    → s.queue ≡ r ∷ rest
    → AllIdle rest
    → IdleBehind (received o r rest buffer s).queue
unfolding received
received-IdleBehind none r rest buffer s e h = replied-IdleBehind (reply buffer) r rest buffer s e h
received-IdleBehind (some bytes) r rest buffer s e h =
    if-cases (λ (c : Client). IdleBehind c.queue) (leb (length buffer) 0)
      (λ _. subst IdleBehind (sym e) h) (λ _. streamed-IdleBehind r rest (bytes ++ buffer) s h)

pub process_responses-IdleBehind :
    (queue : List Request) (buffer : List ℕ) (s : Client)
    → s.queue ≡ queue
    → IdleBehind queue
    → IdleBehind (process_responses queue buffer s).queue
unfolding process_responses
process_responses-IdleBehind [] buffer s e h = subst IdleBehind (sym e) h
process_responses-IdleBehind (r ∷ rest) buffer s e h =
    received-IdleBehind r.raw_stream r rest buffer s e h
