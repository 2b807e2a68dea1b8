-- ===== src/Provider/AdbQueue/Promises.antt =====
-- What becomes of the promises of lib/units/provider/ADBObserver.js over any sequence of steps.
use mercury_farm.Base.{
  ℕ, ◌≡◌, refl, sym, ap, ◌∙◌, ◌+◌, true, false, not, ◌&&◌, ◌||◌, Option, none, some, List, [], ◌∷◌,
  ◌++◌, ltb, ◌==◌, if-cases, arith,
}
use mercury_farm.Provider.AdbQueue.{
  Outcome, closed, timed_out, write_failed, gave_up, output, Request, Client, settle, push, send,
  request_for, transport_request, host_request, on_data, reject_all, lost, closed_stream, closed_at,
  on_close, drop_head, on_timeout, on_write_error, ensure_connection, on_reconnected, give_up,
  close_connection, stop, new, Step, sends, connects, data_comes, closes, times_out, write_fails,
  reconnects, gives_up, stops, step, run,
}
use mercury_farm.Provider.AdbQueue.Settles.{
  one, in_queue, in_settled, tally, in_queue-append, Kept, settled-Kept, process_next-Kept,
  settle-next, process_responses-Kept, reject_all-Kept,
}

drop_head-Kept :
    (o : Outcome) (queue : List Request) (s : Client)
    → s.queue ≡ queue
    → Kept queue s.settled s.promises (drop_head o queue s)
unfolding drop_head
drop_head-Kept o [] s e = record { tallies = λ p. ap (λ q. tally p q s.settled) e; promised = refl }
drop_head-Kept o (r ∷ rest) s e =
    if-cases (Kept (r ∷ rest) s.settled s.promises) r.timer (λ _. settle-next r rest o s)
      (λ _. record { tallies = λ p. ap (λ q. tally p q s.settled) e; promised = refl })

lost-Kept : (queue : List Request) (s : Client) → Kept queue s.settled s.promises (lost queue s)
unfolding lost
lost-Kept queue s =
    if-cases (Kept queue s.settled s.promises) (s.continues && not s.is_destroyed)
      (λ _. record { tallies = λ p. refl; promised = refl }) (λ _. reject_all-Kept closed queue s)

closed_stream-Kept :
    (o : Option (List ℕ)) (r : Request) (rest : List Request) (s : Client)
    → Kept (r ∷ rest) s.settled s.promises (closed_stream o r rest s)
unfolding closed_stream in_queue
closed_stream-Kept none r rest s =
    let k = lost-Kept ((record r { timer = false }) ∷ rest) s in
    record { tallies = k.tallies; promised = k.promised }
closed_stream-Kept (some bytes) r rest s =
    if-cases (Kept (r ∷ rest) s.settled s.promises) (s.continues && not s.is_destroyed)
      (λ _. settle-next r rest (output bytes) s) (λ _. settled-Kept r rest (output bytes) s)

closed_at-Kept :
    (queue : List Request) (s : Client) → Kept queue s.settled s.promises (closed_at queue s)
unfolding closed_at
closed_at-Kept [] s = lost-Kept [] s
closed_at-Kept (r ∷ rest) s = closed_stream-Kept r.raw_stream r rest s

-- each promise that was made is on the queue or settled, and that once
abbrev pub Accounted : Client → Type 0
Accounted s = (p : ℕ) → tally p s.queue s.settled ≡ one (ltb p s.promises)

still : (s s' : Client) → Kept s.queue s.settled s.promises s' → Accounted s → Accounted s'
still s s' k a = λ p. k.tallies p ∙ a p ∙ ap (λ n. one (ltb p n)) (sym k.promised)

request_for-promise :
    (transport : Option (List ℕ)) (command : List ℕ) (promise : ℕ)
    → (request_for transport command promise).promise ≡ promise
unfolding request_for host_request transport_request
request_for-promise none command promise = refl
request_for-promise (some transport) command promise = refl

new_count :
    (q t n p m : ℕ)
    → m ≡ n
    → q + t ≡ one (ltb p n)
    → q + (one (m == p) + 0) + t ≡ one (ltb p (n + 1))
new_count q t n p m e a = ground arith

send-Accounted :
    (transport : Option (List ℕ)) (command : List ℕ) (s : Client)
    → Accounted s
    → Accounted (send transport command s)
unfolding send in_queue
send-Accounted transport command s a =
    let r = request_for transport command s.promises in
    still (push r (record s { promises = s.promises + 1 })) _ (process_next-Kept _) (λ p.
      ap (λ n. n + in_settled p s.settled) (in_queue-append p s.queue (r ∷ []))
      ∙ new_count (in_queue p s.queue) (in_settled p s.settled) s.promises p r.promise
          (request_for-promise transport command s.promises) (a p))

step-Accounted : (e : Step) (s : Client) → Accounted s → Accounted (step e s)
unfolding step on_data on_close on_timeout on_write_error ensure_connection on_reconnected give_up
    stop close_connection
step-Accounted (sends transport command) s a = send-Accounted transport command s a
step-Accounted connects s a =
    if-cases Accounted (s.is_connected || s.is_reconnecting) (λ _. a) (λ _. a)
step-Accounted (data_comes bytes) s a =
    still s _ (process_responses-Kept s.queue (s.buffer ++ bytes) s refl) a
step-Accounted closes s a =
    still s _ (closed_at-Kept s.queue (record s { is_connected = false; buffer = [] })) a
step-Accounted times_out s a = still s _ (drop_head-Kept timed_out s.queue s refl) a
step-Accounted write_fails s a = still s _ (drop_head-Kept write_failed s.queue s refl) a
step-Accounted reconnects s a =
    still s _
      (process_next-Kept (record s { is_connected = true; buffer = []; is_reconnecting = false })) a
step-Accounted gives_up s a =
    still s _ (reject_all-Kept gave_up s.queue (record s { is_reconnecting = false })) a
step-Accounted stops s a =
    still s _
      (reject_all-Kept closed s.queue (record s {
        continues = false;
        is_connected = false;
        buffer = [];
        is_reconnecting = false;
      }))
      a

run-Accounted : (steps : List Step) (s : Client) → Accounted s → Accounted (run steps s)
unfolding run
run-Accounted [] s a = a
run-Accounted (e ∷ steps) s a = run-Accounted steps (step e s) (step-Accounted e s a)

-- Whatever is sent and whatever comes from the connection: each promise that was made is either on
-- the queue or settled, and that exactly once, and no other is.
pub run-settles_once :
    (steps : List Step) (p : ℕ)
    → in_queue p (run steps new).queue + in_settled p (run steps new).settled
      ≡ one (ltb p (run steps new).promises)
unfolding new in_queue in_settled
run-settles_once steps p = run-Accounted steps new (λ p. ground arith) p

zero_add : (n : ℕ) → 0 + n ≡ n
zero_add n = omega arith

reject_all-queue :
    (o : Outcome) (requests : List Request) (s : Client) → (reject_all o requests s).queue ≡ []
unfolding reject_all
reject_all-queue o [] s = refl
reject_all-queue o (r ∷ requests) s = reject_all-queue o requests (settle r o s)

-- A stop leaves no promise open: whatever went before, each one that was made is then settled
-- exactly once.
pub stop-settles_all :
    (steps : List Step) (p : ℕ)
    → in_settled p (stop (run steps new)).settled ≡ one (ltb p (stop (run steps new)).promises)
unfolding stop close_connection in_queue in_settled new step
stop-settles_all steps p =
    let s = run steps new in
    let a = step-Accounted stops s (run-Accounted steps new (λ p. ground arith)) p in
    sym (zero_add _)
    ∙ ap (λ q. tally p q (stop s).settled)
        (sym (
          reject_all-queue closed s.queue (record s {
            continues = false;
            is_connected = false;
            buffer = [];
            is_reconnecting = false;
          })))
    ∙ a
