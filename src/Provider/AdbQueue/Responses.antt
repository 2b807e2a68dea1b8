-- ===== src/Provider/AdbQueue/Responses.antt =====
-- A host command's response in lib/units/provider/ADBObserver.js, in whatever pieces it comes.
use mathlib.Core.Path.{subst}
use mathlib.Core.List.{append-nil, append_assoc}
use mercury_farm.Base.{
  ℕ, ◌≡◌, refl, sym, ap, ◌∙◌, ◌<◌, true, not, ◌||◌, List, [], ◌∷◌, ◌++◌, map, length, take, drop,
  Bool-cases, inl, inr,
}
use mercury_farm.Provider.AdbWire.{frame, complete, framed, reply, okay_status, bytes_eq}
use mercury_farm.Provider.AdbWire.RoundTrip.{framed-frame}
use mercury_farm.Provider.AdbWire.Extension.{framed-part}
use mercury_farm.Provider.AdbQueue.{
  text, timed_out, Request, Client, process_next, process_next_of, host_request, answered, okayed,
  replied, received, process_responses, on_data, data_comes, times_out, step, run, drop_head,
  on_timeout,
}

abbrev pub in_flight : List ℕ → ℕ → Request
in_flight command promise = record (host_request command promise) { timer = true }

-- the response of the server to a host command
abbrev pub response : List ℕ → List ℕ
response payload = okay_status ++ frame payload

-- a client that waits for the response to its first request, of which a part may have come
abbrev pub waiting : List ℕ → ℕ → List Request → List ℕ → Client → Client
waiting command promise rest buffer s = record s {
  queue = in_flight command promise ∷ rest;
  buffer = buffer;
}

abbrev pub resolved : ℕ → List ℕ → List Request → Client → Client
resolved promise payload rest s =
    record (process_next
      (record s { queue = rest; settled = s.settled ++ (promise, text payload) ∷ [] })) {
        buffer = [];
      }

framed-whole :
    (payload : List ℕ) → length payload < 65536 → framed (frame payload) ≡ complete payload []
framed-whole payload small =
    ap framed (sym (append-nil (frame payload))) ∙ framed-frame payload [] small

-- a client's buffer has no bearing on what it sends
process_next_of-buffer :
    (queue : List Request) (s : Client) (bytes : List ℕ)
    → record (process_next_of queue (record s { buffer = bytes })) { buffer = [] }
      ≡ record (process_next_of queue s) { buffer = [] }
unfolding process_next_of
process_next_of-buffer [] s bytes = refl
process_next_of-buffer (r ∷ rest) s bytes = elim (Bool-cases (r.timer || not s.is_connected)) [
  | inl h ↦ (rw h refl)
  | inr h ↦ (rw h refl)
]

-- a whole response
on_data-whole :
    (command : List ℕ) (promise : ℕ) (rest : List Request) (buffer bytes payload : List ℕ)
    (s : Client)
    → length payload < 65536
    → buffer ++ bytes ≡ response payload
    → on_data bytes (waiting command promise rest buffer s) ≡ resolved promise payload rest s
unfolding on_data process_responses received host_request replied reply okayed bytes_eq answered
    process_next
on_data-whole command promise rest buffer bytes payload s small e =
    ap
      (λ b.
        process_responses (in_flight command promise ∷ rest) b
          (waiting command promise rest buffer s))
      e
    ∙ ap
        (λ f.
          answered f (in_flight command promise) rest (response payload)
            (waiting command promise rest buffer s))
        (framed-whole payload small)
    ∙ process_next_of-buffer rest
        (record s { queue = rest; settled = s.settled ++ (promise, text payload) ∷ [] }) buffer

replied-okay :
    (bytes more : List ℕ) (x : ℕ) (payload command : List ℕ) (promise : ℕ) (rest : List Request)
    (s : Client)
    → framed (bytes ++ x ∷ more) ≡ complete payload []
    → replied
        (reply (okay_status ++ bytes))
        (in_flight command promise)
        rest
        (okay_status ++ bytes)
        s
      ≡ record s { buffer = okay_status ++ bytes }
unfolding replied host_request reply okayed bytes_eq answered
replied-okay bytes more x payload command promise rest s e =
    ap (λ f. answered f (in_flight command promise) rest (okay_status ++ bytes) s)
      (framed-part bytes more payload x (framed bytes) refl e)

-- a part of one
replied-part :
    (b : List ℕ) (x : ℕ) (more payload : List ℕ) (command : List ℕ) (promise : ℕ)
    (rest : List Request) (s : Client)
    → length payload < 65536
    → b ++ x ∷ more ≡ response payload
    → replied (reply b) (in_flight command promise) rest b s ≡ record s { buffer = b }
unfolding replied reply
replied-part [] x more payload command promise rest s small e = refl
replied-part (a ∷ []) x more payload command promise rest s small e = refl
replied-part (a ∷ b ∷ []) x more payload command promise rest s small e = refl
replied-part (a ∷ b ∷ c ∷ []) x more payload command promise rest s small e = refl
replied-part (a ∷ b ∷ c ∷ d ∷ bytes) x more payload command promise rest s small e =
    let start : a ∷ b ∷ c ∷ d ∷ bytes ≡ okay_status ++ bytes = ap (λ l. take 4 l ++ bytes) e in
    let end : bytes ++ x ∷ more ≡ frame payload = ap (drop 4) e in
    subst (λ l. replied (reply l) (in_flight command promise) rest l s ≡ record s { buffer = l })
      (sym start)
      (replied-okay bytes more x payload command promise rest s
        (ap framed end ∙ framed-whole payload small))

on_data-part :
    (command : List ℕ) (promise : ℕ) (rest : List Request) (buffer bytes : List ℕ) (x : ℕ)
    (more payload : List ℕ) (s : Client)
    → length payload < 65536
    → (buffer ++ bytes) ++ x ∷ more ≡ response payload
    → on_data bytes (waiting command promise rest buffer s)
      ≡ waiting command promise rest (buffer ++ bytes) s
unfolding on_data process_responses received host_request
on_data-part command promise rest buffer bytes x more payload s small e =
    replied-part (buffer ++ bytes) x more payload command promise rest
      (waiting command promise rest buffer s) small e

abbrev pub concat : List (List ℕ) → List ℕ
concat [] = []
concat (c ∷ chunks) = c ++ concat chunks

front : (l : List ℕ) (x : ℕ) (last : List ℕ) → (y : ℕ) × (ys : List ℕ) × l ++ x ∷ last ≡ y ∷ ys
front [] x last = (x, last, refl)
front (y ∷ l) x last = (y, l ++ x ∷ last, refl)

pieces :
    (command : List ℕ) (promise : ℕ) (rest : List Request) (buffer : List ℕ)
    (chunks : List (List ℕ)) (x : ℕ) (last payload : List ℕ) (s : Client)
    → length payload < 65536
    → buffer ++ (concat chunks ++ x ∷ last) ≡ response payload
    → run (map data_comes (chunks ++ (x ∷ last) ∷ [])) (waiting command promise rest buffer s)
      ≡ resolved promise payload rest s
unfolding run step
pieces command promise rest buffer [] x last payload s small e =
    on_data-whole command promise rest buffer (x ∷ last) payload s small e
pieces command promise rest buffer (c ∷ chunks) x last payload s small e =
    let f = front (concat chunks) x last in
    let e' : (buffer ++ c) ++ (concat chunks ++ x ∷ last) ≡ response payload =
      append_assoc buffer c _
      ∙ ap (λ l. buffer ++ l) (sym (append_assoc c (concat chunks) (x ∷ last)))
      ∙ e in
    ap (run (map data_comes (chunks ++ (x ∷ last) ∷ []))) (
      on_data-part command promise rest buffer c f.0 f.1 payload s small
        (ap (λ l. (buffer ++ c) ++ l) (sym f.2) ∙ e'))
    ∙ pieces command promise rest (buffer ++ c) chunks x last payload s small e'

-- The response to a host command in flight, with a payload of less than 65536 bytes, in any pieces
-- of which the last is not empty, resolves the command's promise with that payload at the last
-- piece, sends the next request and leaves the buffer empty.
pub response-resolves :
    (command payload : List ℕ) (promise : ℕ) (rest : List Request) (chunks : List (List ℕ)) (x : ℕ)
    (last : List ℕ) (s : Client)
    → length payload < 65536
    → concat chunks ++ x ∷ last ≡ response payload
    → run (map data_comes (chunks ++ (x ∷ last) ∷ [])) (waiting command promise rest [] s)
      ≡ resolved promise payload rest s
response-resolves command payload promise rest chunks x last s small e =
    pieces command promise rest [] chunks x last payload s small e

on_timeout-next :
    (first next : List ℕ) (p q : ℕ) (rest : List Request) (s : Client)
    → s.is_connected ≡ true
    → on_timeout (waiting first p (host_request next q ∷ rest) [] s)
      ≡ waiting next q rest [] (record s {
        settled = s.settled ++ (p, timed_out) ∷ [];
        written = s.written ++ frame next ∷ [];
      })
unfolding on_timeout drop_head host_request process_next process_next_of
on_timeout-next first next p q rest s connected = rw connected refl

-- If a host command times out and another one is next on a connection, then the response to the
-- first, with a payload of less than 65536 bytes, resolves the second with that payload.
pub late-answers_next :
    (first next payload : List ℕ) (p q : ℕ) (rest : List Request) (s : Client)
    → length payload < 65536
    → s.is_connected ≡ true
    → run
        (times_out ∷ data_comes (response payload) ∷ [])
        (waiting first p (host_request next q ∷ rest) [] s)
      ≡ resolved q payload rest (record s {
        settled = s.settled ++ (p, timed_out) ∷ [];
        written = s.written ++ frame next ∷ [];
      })
unfolding run step
late-answers_next first next payload p q rest s small connected =
    ap (on_data (response payload)) (on_timeout-next first next p q rest s connected)
    ∙ on_data-whole next q rest [] (response payload) payload
        (record s {
          settled = s.settled ++ (p, timed_out) ∷ [];
          written = s.written ++ frame next ∷ [];
        })
        small refl
