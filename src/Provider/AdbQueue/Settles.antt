-- ===== src/Provider/AdbQueue/Settles.antt =====
-- The promises of lib/units/provider/ADBObserver.js over any sequence of steps.
use mercury_farm.Base.{
  ℕ, ◌≡◌, refl, ap, ◌∙◌, ◌+◌, Bool, not, ◌||◌, Option, none, some, List, [], ◌∷◌, ◌++◌, leb, ◌==◌,
  if◌then◌else◌, if-cases, length, arith,
}
use mercury_farm.Provider.AdbWire.{
  Framed, incomplete, nan, complete, framed, Reply, waits, fails, okay, unknown, reply,
}
use mercury_farm.Provider.AdbQueue.{
  Outcome, text, failed, output, Request, Client, settle, process_next_of, process_next, push,
  shell_request, resolve_empty, has_newline, streamed, answered, okayed, replied, received,
  process_responses, reject_all,
}

abbrev pub one : Bool → ℕ
one b = if b then 1 else 0

-- how often a promise stands on a queue, and how often it is settled
unfoldable pub in_queue : ℕ → List Request → ℕ
in_queue p [] = 0
in_queue p (r ∷ rest) = one (r.promise == p) + in_queue p rest

unfoldable pub in_settled : ℕ → List (ℕ × Outcome) → ℕ
in_settled p [] = 0
in_settled p (o ∷ outcomes) = one (o.0 == p) + in_settled p outcomes

pub in_queue-append :
    (p : ℕ) (xs ys : List Request) → in_queue p (xs ++ ys) ≡ in_queue p xs + in_queue p ys
unfolding in_queue
in_queue-append p [] ys = omega arith
in_queue-append p (x ∷ xs) ys = rw (in_queue-append p xs ys) (omega arith)

in_settled-append :
    (p : ℕ) (xs ys : List (ℕ × Outcome))
    → in_settled p (xs ++ ys) ≡ in_settled p xs + in_settled p ys
unfolding in_settled
in_settled-append p [] ys = omega arith
in_settled-append p (x ∷ xs) ys = rw (in_settled-append p xs ys) (omega arith)

abbrev pub tally : ℕ → List Request → List (ℕ × Outcome) → ℕ
tally p queue settled = in_queue p queue + in_settled p settled

-- a client accounts for the requests and the outcomes that there were
pub record Kept (queue : List Request) (settled : List (ℕ × Outcome)) (promises : ℕ) (s : Client)
    : Type 0 where
  pub tallies : (p : ℕ) → tally p s.queue s.settled ≡ tally p queue settled
  pub promised : s.promises ≡ promises

same-Kept : (s : Client) → Kept s.queue s.settled s.promises s
same-Kept s = record { tallies = λ p. refl; promised = refl }

pub process_next_of-Kept :
    (queue : List Request) (s : Client)
    → s.queue ≡ queue
    → Kept queue s.settled s.promises (process_next_of queue s)
unfolding process_next_of in_queue
process_next_of-Kept [] s e = record {
  tallies = λ p. ap (λ q. tally p q s.settled) e;
  promised = refl;
}
process_next_of-Kept (r ∷ rest) s e =
    if-cases (Kept (r ∷ rest) s.settled s.promises) (r.timer || not s.is_connected)
      (λ _. record { tallies = λ p. ap (λ q. tally p q s.settled) e; promised = refl })
      (λ _. record { tallies = λ p. refl; promised = refl })

pub process_next-Kept : (s : Client) → Kept s.queue s.settled s.promises (process_next s)
unfolding process_next
process_next-Kept s = process_next_of-Kept s.queue s refl

-- a promise is settled and its request is off the queue
settle-tally :
    (p : ℕ) (r : Request) (rest : List Request) (o : Outcome) (settled : List (ℕ × Outcome))
    → tally p rest (settled ++ (r.promise, o) ∷ []) ≡ tally p (r ∷ rest) settled
unfolding in_queue in_settled
settle-tally p r rest o settled =
    (rw (in_settled-append p settled ((r.promise, o) ∷ [])) (omega arith))

settle-Kept :
    (r : Request) (rest : List Request) (o : Outcome) (settled : List (ℕ × Outcome)) (promises : ℕ)
    (s : Client)
    → Kept rest (settled ++ (r.promise, o) ∷ []) promises s
    → Kept (r ∷ rest) settled promises s
settle-Kept r rest o settled promises s k = record {
  tallies = λ p. k.tallies p ∙ settle-tally p r rest o settled;
  promised = k.promised;
}

pub settled-Kept :
    (r : Request) (rest : List Request) (o : Outcome) (s : Client)
    → Kept (r ∷ rest) s.settled s.promises (settle r o (record s { queue = rest }))
settled-Kept r rest o s = settle-Kept r rest o s.settled s.promises _ (same-Kept _)

-- a request is settled and the next is sent
pub settle-next :
    (r : Request) (rest : List Request) (o : Outcome) (s : Client)
    → Kept (r ∷ rest) s.settled s.promises (process_next (settle r o (record s { queue = rest })))
settle-next r rest o s =
    settle-Kept r rest o s.settled s.promises _
      (process_next-Kept (settle r o (record s { queue = rest })))

-- what is left in the buffer is no matter
buffer-Kept :
    (queue : List Request) (settled : List (ℕ × Outcome)) (promises : ℕ) (s : Client)
    (bytes : List ℕ)
    → Kept queue settled promises s
    → Kept queue settled promises (record s { buffer = bytes })
buffer-Kept queue settled promises s bytes k = record { tallies = k.tallies; promised = k.promised }

streamed-Kept :
    (r : Request) (rest : List Request) (bytes : List ℕ) (s : Client)
    → Kept (r ∷ rest) s.settled s.promises (streamed r rest bytes s)
unfolding streamed in_queue
streamed-Kept r rest bytes s =
    if-cases (Kept (r ∷ rest) s.settled s.promises) (has_newline bytes)
      (λ _. settle-Kept r rest (output bytes) s.settled s.promises _ (process_next-Kept _))
      (λ _. record { tallies = λ p. refl; promised = refl })

answered-Kept :
    (f : Framed) (r : Request) (rest : List Request) (buffer : List ℕ) (s : Client)
    → s.queue ≡ r ∷ rest
    → Kept (r ∷ rest) s.settled s.promises (answered f r rest buffer s)
unfolding answered
answered-Kept incomplete r rest buffer s e = record {
  tallies = λ p. ap (λ q. tally p q s.settled) e;
  promised = refl;
}
answered-Kept nan r rest buffer s e = buffer-Kept _ _ _ _ buffer (settle-next r rest (text []) s)
answered-Kept (complete payload left) r rest buffer s e =
    buffer-Kept _ _ _ _ left (settle-next r rest (text payload) s)

moved-tally :
    (p : ℕ) (command : List ℕ) (r : Request) (rest : List Request) (settled : List (ℕ × Outcome))
    → tally p (rest ++ shell_request command r.promise ∷ []) settled ≡ tally p (r ∷ rest) settled
unfolding in_queue shell_request
moved-tally p command r rest settled =
    (rw (in_queue-append p rest (shell_request command r.promise ∷ [])) (omega arith))

-- one more look at the queue
again-Kept :
    (queue : List Request) (settled : List (ℕ × Outcome)) (promises : ℕ) (s : Client)
    → Kept queue settled promises s
    → Kept queue settled promises (process_next s)
again-Kept queue settled promises s k =
    let n = process_next-Kept s in
    record { tallies = λ p. n.tallies p ∙ k.tallies p; promised = n.promised ∙ k.promised }

resolve_empty-Kept :
    (command : Option (List ℕ)) (r : Request) (rest : List Request) (s : Client)
    → Kept
        (r ∷ rest)
        s.settled
        s.promises
        (process_next (resolve_empty command r (record s { queue = rest })))
unfolding resolve_empty
resolve_empty-Kept none r rest s = settle-next r rest (text []) s
resolve_empty-Kept (some command) r rest s =
    let k =
      process_next-Kept (push (shell_request command r.promise) (record s { queue = rest })) in
    again-Kept _ _ _ _ (record {
      tallies = λ p. k.tallies p ∙ moved-tally p command r rest s.settled;
      promised = k.promised;
    })

okayed-Kept :
    (r : Request) (rest : List Request) (bytes buffer : List ℕ) (s : Client)
    → s.queue ≡ r ∷ rest
    → Kept (r ∷ rest) s.settled s.promises (okayed r rest bytes buffer s)
unfolding okayed
okayed-Kept r rest bytes buffer s e =
    if-cases (Kept (r ∷ rest) s.settled s.promises) r.is_raw_stream
      (λ _. streamed-Kept r rest bytes s)
      (λ _.
        if-cases (Kept (r ∷ rest) s.settled s.promises) r.needs_data
          (λ _. answered-Kept (framed bytes) r rest buffer s e)
          (λ _. buffer-Kept _ _ _ _ bytes (resolve_empty-Kept r.for_device r rest s)))

replied-Kept :
    (a : Reply) (r : Request) (rest : List Request) (buffer : List ℕ) (s : Client)
    → s.queue ≡ r ∷ rest
    → Kept (r ∷ rest) s.settled s.promises (replied a r rest buffer s)
unfolding replied
replied-Kept waits r rest buffer s e = record {
  tallies = λ p. ap (λ q. tally p q s.settled) e;
  promised = refl;
}
replied-Kept unknown r rest buffer s e = record {
  tallies = λ p. ap (λ q. tally p q s.settled) e;
  promised = refl;
}
replied-Kept (fails message left) r rest buffer s e =
    buffer-Kept _ _ _ _ left (settle-next r rest (failed message) s)
replied-Kept (okay bytes) r rest buffer s e = okayed-Kept r rest bytes buffer s e

received-Kept :
    (o : Option (List ℕ)) (r : Request) (rest : List Request) (buffer : List ℕ) (s : Client)
    → s.queue ≡ r ∷ rest
    → Kept (r ∷ rest) s.settled s.promises (received o r rest buffer s)
unfolding received
received-Kept none r rest buffer s e = replied-Kept (reply buffer) r rest buffer s e
received-Kept (some bytes) r rest buffer s e =
    if-cases (Kept (r ∷ rest) s.settled s.promises) (leb (length buffer) 0)
      (λ _. record { tallies = λ p. ap (λ q. tally p q s.settled) e; promised = refl })
      (λ _. streamed-Kept r rest (bytes ++ buffer) s)

pub process_responses-Kept :
    (queue : List Request) (buffer : List ℕ) (s : Client)
    → s.queue ≡ queue
    → Kept queue s.settled s.promises (process_responses queue buffer s)
unfolding process_responses
process_responses-Kept [] buffer s e = record {
  tallies = λ p. ap (λ q. tally p q s.settled) e;
  promised = refl;
}
process_responses-Kept (r ∷ rest) buffer s e = received-Kept r.raw_stream r rest buffer s e

pub reject_all-Kept :
    (o : Outcome) (queue : List Request) (s : Client)
    → Kept queue s.settled s.promises (reject_all o queue s)
unfolding reject_all
reject_all-Kept o [] s = record { tallies = λ p. refl; promised = refl }
reject_all-Kept o (r ∷ rest) s =
    settle-Kept r rest o s.settled s.promises _ (reject_all-Kept o rest (settle r o s))
