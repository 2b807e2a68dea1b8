-- ===== src/Provider/AdbQueue/InFlight.antt =====
-- Which requests of lib/units/provider/ADBObserver.js are in flight, over any sequence of steps.
use mathlib.Core.Path.{subst}
use mercury_farm.Base.{
  ℕ, ◌≡◌, refl, sym, ◌+◌, true, false, not, ◌&&◌, ◌||◌, Option, none, some, List, [], ◌∷◌, ◌++◌,
  if-cases,
}
use mercury_farm.Provider.AdbQueue.{
  Outcome, closed, timed_out, write_failed, gave_up, output, Request, Client, settle, push, send,
  request_for, transport_request, host_request, on_data, reject_all, lost, closed_stream, closed_at,
  on_close, drop_head, on_timeout, on_write_error, ensure_connection, on_reconnected, give_up,
  close_connection, stop, new, Step, sends, connects, data_comes, closes, times_out, write_fails,
  reconnects, gives_up, stops, step, run,
}
use mercury_farm.Provider.AdbQueue.Idle.{
  AllIdle, IdleBehind, behind, IdleBehind-append, process_next-IdleBehind,
  process_responses-IdleBehind,
}

reject_all-IdleBehind :
    (o : Outcome) (queue : List Request) (s : Client) → IdleBehind (reject_all o queue s).queue
unfolding reject_all
reject_all-IdleBehind o [] s = tt
reject_all-IdleBehind o (r ∷ rest) s = reject_all-IdleBehind o rest (settle r o s)

lost-IdleBehind :
    (queue : List Request) (s : Client) → IdleBehind queue → IdleBehind (lost queue s).queue
unfolding lost
lost-IdleBehind queue s h =
    if-cases (λ (c : Client). IdleBehind c.queue) (s.continues && not s.is_destroyed) (λ _. h)
      (λ _. reject_all-IdleBehind closed queue s)

closed_stream-IdleBehind :
    (o : Option (List ℕ)) (r : Request) (rest : List Request) (s : Client)
    → AllIdle rest
    → IdleBehind (closed_stream o r rest s).queue
unfolding closed_stream
closed_stream-IdleBehind none r rest s h = lost-IdleBehind ((record r { timer = false }) ∷ rest) s h
closed_stream-IdleBehind (some bytes) r rest s h =
    if-cases (λ (c : Client). IdleBehind c.queue) (s.continues && not s.is_destroyed)
      (λ _.
        process_next-IdleBehind (settle r (output bytes) (record s { queue = rest }))
          (behind rest h))
      (λ _. behind rest h)

closed_at-IdleBehind :
    (queue : List Request) (s : Client) → IdleBehind queue → IdleBehind (closed_at queue s).queue
unfolding closed_at
closed_at-IdleBehind [] s h = lost-IdleBehind [] s tt
closed_at-IdleBehind (r ∷ rest) s h = closed_stream-IdleBehind r.raw_stream r rest s h

drop_head-IdleBehind :
    (o : Outcome) (queue : List Request) (s : Client)
    → s.queue ≡ queue
    → IdleBehind queue
    → IdleBehind (drop_head o queue s).queue
unfolding drop_head
drop_head-IdleBehind o [] s e h = subst IdleBehind (sym e) h
drop_head-IdleBehind o (r ∷ rest) s e h =
    if-cases (λ (c : Client). IdleBehind c.queue) r.timer
      (λ _. process_next-IdleBehind (settle r o (record s { queue = rest })) (behind rest h))
      (λ _. subst IdleBehind (sym e) h)

request_for-idle :
    (transport : Option (List ℕ)) (command : List ℕ) (promise : ℕ)
    → ((request_for transport command promise).timer ≡ false)
      × ((request_for transport command promise).raw_stream ≡ none)
unfolding request_for host_request transport_request
request_for-idle none command promise = (refl, refl)
request_for-idle (some transport) command promise = (refl, refl)

send-IdleBehind :
    (transport : Option (List ℕ)) (command : List ℕ) (s : Client)
    → IdleBehind s.queue
    → IdleBehind (send transport command s).queue
unfolding send
send-IdleBehind transport command s h =
    let r = request_for transport command s.promises in
    let idle = request_for-idle transport command s.promises in
    process_next-IdleBehind (push r (record s { promises = s.promises + 1 }))
      (IdleBehind-append s.queue r idle.0 idle.1 h)

step-IdleBehind : (e : Step) (s : Client) → IdleBehind s.queue → IdleBehind (step e s).queue
unfolding step on_data on_close on_timeout on_write_error ensure_connection on_reconnected give_up
    stop close_connection
step-IdleBehind (sends transport command) s h = send-IdleBehind transport command s h
step-IdleBehind connects s h =
    if-cases (λ (c : Client). IdleBehind c.queue) (s.is_connected || s.is_reconnecting) (λ _. h)
      (λ _. h)
step-IdleBehind (data_comes bytes) s h =
    process_responses-IdleBehind s.queue (s.buffer ++ bytes) s refl h
step-IdleBehind closes s h =
    closed_at-IdleBehind s.queue (record s { is_connected = false; buffer = [] }) h
step-IdleBehind times_out s h = drop_head-IdleBehind timed_out s.queue s refl h
step-IdleBehind write_fails s h = drop_head-IdleBehind write_failed s.queue s refl h
step-IdleBehind reconnects s h =
    process_next-IdleBehind (record s { is_connected = true; buffer = []; is_reconnecting = false })
      h
step-IdleBehind gives_up s h =
    reject_all-IdleBehind gave_up s.queue (record s { is_reconnecting = false })
step-IdleBehind stops s h =
    reject_all-IdleBehind closed s.queue
      (record s { continues = false; is_connected = false; buffer = []; is_reconnecting = false })

run-from : (steps : List Step) (s : Client) → IdleBehind s.queue → IdleBehind (run steps s).queue
unfolding run
run-from [] s h = h
run-from (e ∷ steps) s h = run-from steps (step e s) (step-IdleBehind e s h)

-- Whatever is sent and whatever comes from the connection, behind the first request of the queue
-- none is in flight and none has started to read a stream.
pub run-IdleBehind : (steps : List Step) → IdleBehind (run steps new).queue
unfolding new
run-IdleBehind steps = run-from steps new tt
