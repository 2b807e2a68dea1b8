-- ===== src/Provider/AdbQueue.antt =====
-- The requests of lib/units/provider/ADBObserver.js on its one connection to ADB. The texts of
-- commands and responses are bytes; what `resolve` and `reject` are called with is kept with the
-- number of the promise. A request and what may come next are steps.
pub mod Settles
pub mod Promises
pub mod Responses
pub mod Tunnel
pub mod Idle
pub mod InFlight
mod Tests
use mercury_farm.Base.{
  ℕ, suc, ◌+◌, Bool, true, false, not, ◌&&◌, ◌||◌, Option, none, some, List, [], ◌∷◌, ◌++◌, map,
  is_some, ltb, leb, ◌==◌, if◌then◌else◌, length,
}
use mercury_farm.Provider.AdbWire.{
  frame, Framed, incomplete, nan, complete, framed, Reply, waits, fails, okay, unknown, reply,
}

-- what a promise comes to
pub data Outcome : Type 0 where
  -- a payload as it is, and the trimmed output of a device
  text : List ℕ → Outcome
  output : List ℕ → Outcome
  failed : List ℕ → Outcome
  timed_out : Outcome
  write_failed : Outcome
  closed : Outcome
  gave_up : Outcome

pub record Request : Type 0 where
  pub command : List ℕ
  pub promise : ℕ
  pub needs_data : Bool
  pub is_raw_stream : Bool
  -- of a transport: the command for the device, which `resolve` puts on the queue
  pub for_device : Option (List ℕ)
  -- whether it is in flight
  pub timer : Bool
  -- of a raw stream that has started
  pub raw_stream : Option (List ℕ)

pub record Client : Type 0 where
  pub queue : List Request
  pub settled : List (ℕ × Outcome)
  pub promises : ℕ
  pub is_connected : Bool
  -- of the connection
  pub buffer : List ℕ
  pub written : List (List ℕ)
  pub is_reconnecting : Bool
  pub continues : Bool
  pub is_destroyed : Bool

abbrev pub settle : Request → Outcome → Client → Client
settle r o s = record s { settled = s.settled ++ (r.promise, o) ∷ [] }

unfoldable pub process_next_of : List Request → Client → Client
process_next_of [] s = s
process_next_of (r ∷ rest) s = if r.timer || not s.is_connected then s else record s {
  queue = (record r { timer = true }) ∷ rest;
  written = s.written ++ frame r.command ∷ [];
}

unfoldable pub process_next : Client → Client
process_next s = process_next_of s.queue s

-- `sendADBCommand` for the server, once there is a connection
unfoldable pub host_request : List ℕ → ℕ → Request
host_request command promise = record {
  command = command;
  promise = promise;
  needs_data = true;
  is_raw_stream = false;
  for_device = none;
  timer = false;
  raw_stream = none;
}

-- and for a device: `transport` is the host:transport: command with its serial
unfoldable pub transport_request : List ℕ → List ℕ → ℕ → Request
transport_request transport command promise = record {
  command = transport;
  promise = promise;
  needs_data = false;
  is_raw_stream = false;
  for_device = some command;
  timer = false;
  raw_stream = none;
}

unfoldable pub shell_request : List ℕ → ℕ → Request
shell_request command promise = record {
  command = command;
  promise = promise;
  needs_data = false;
  is_raw_stream = true;
  for_device = none;
  timer = false;
  raw_stream = none;
}

abbrev pub push : Request → Client → Client
push r s = record s { queue = s.queue ++ r ∷ [] }

unfoldable pub request_for : Option (List ℕ) → List ℕ → ℕ → Request
request_for none command promise = host_request command promise
request_for (some transport) command promise = transport_request transport command promise

unfoldable pub send : Option (List ℕ) → List ℕ → Client → Client
send transport command s =
    process_next
      (push (request_for transport command s.promises) (record s { promises = s.promises + 1 }))

-- a request that was taken off the queue is resolved with an empty text
unfoldable pub resolve_empty : Option (List ℕ) → Request → Client → Client
resolve_empty none r s = settle r (text []) s
resolve_empty (some command) r s = process_next (push (shell_request command r.promise) s)

abbrev newline : ℕ
newline = 10

unfoldable pub has_newline : List ℕ → Bool
has_newline [] = false
has_newline (c ∷ bytes) = (c == newline) || has_newline bytes

abbrev pub close_after_transport : Client → Client
close_after_transport s = record s { is_connected = false }

-- the bytes of a raw stream so far
unfoldable pub streamed : Request → List Request → List ℕ → Client → Client
streamed r rest bytes s =
    if has_newline bytes
    then process_next
        (close_after_transport (settle r (output bytes) (record s { queue = rest; buffer = [] })))
    else record s { queue = (record r { raw_stream = some bytes }) ∷ rest; buffer = [] }

-- a response with its length
unfoldable pub answered : Framed → Request → List Request → List ℕ → Client → Client
answered incomplete r rest buffer s = record s { buffer = buffer }
answered nan r rest buffer s =
    record (process_next (settle r (text []) (record s { queue = rest }))) { buffer = buffer }
answered (complete payload left) r rest buffer s =
    record (process_next (settle r (text payload) (record s { queue = rest }))) { buffer = left }

unfoldable pub okayed : Request → List Request → List ℕ → List ℕ → Client → Client
okayed r rest bytes buffer s =
    if r.is_raw_stream
    then streamed r rest bytes s
    else if r.needs_data
    then answered (framed bytes) r rest buffer s
    else record (process_next (resolve_empty r.for_device r (record s { queue = rest }))) {
      buffer = bytes;
    }

unfoldable pub replied : Reply → Request → List Request → List ℕ → Client → Client
replied waits r rest buffer s = record s { buffer = buffer }
replied unknown r rest buffer s = record s { buffer = buffer }
replied (fails message left) r rest buffer s =
    record (process_next (settle r (failed message) (record s { queue = rest }))) { buffer = left }
replied (okay bytes) r rest buffer s = okayed r rest bytes buffer s

-- `processADBResponses`
unfoldable pub received : Option (List ℕ) → Request → List Request → List ℕ → Client → Client
received (some bytes) r rest buffer s =
    if leb (length buffer) 0 then record s { buffer = [] } else streamed r rest (bytes ++ buffer) s
received none r rest buffer s = replied (reply buffer) r rest buffer s

unfoldable pub process_responses : List Request → List ℕ → Client → Client
process_responses [] buffer s = record s { buffer = buffer }
process_responses (r ∷ rest) buffer s = received r.raw_stream r rest buffer s

unfoldable pub on_data : List ℕ → Client → Client
on_data bytes s = process_responses s.queue (s.buffer ++ bytes) s

unfoldable pub reject_all : Outcome → List Request → Client → Client
reject_all o [] s = record s { queue = [] }
reject_all o (r ∷ requests) s = reject_all o requests (settle r o s)

abbrev is_running : Client → Bool
is_running s = s.continues && not s.is_destroyed

-- `attemptReconnect` up to its first wait
abbrev pub attempt_reconnect : Client → Client
attempt_reconnect s = record s { is_reconnecting = true }

unfoldable pub lost : List Request → Client → Client
lost requests s =
    if is_running s
    then attempt_reconnect (record s { queue = requests })
    else reject_all closed requests s

-- the close of a connection whose raw stream has started completes it
unfoldable pub closed_stream : Option (List ℕ) → Request → List Request → Client → Client
closed_stream none r rest s = lost ((record r { timer = false }) ∷ rest) s
closed_stream (some bytes) r rest s =
    let done = settle r (output bytes) (record s { queue = rest }) in
    if is_running s then process_next done else done

unfoldable pub closed_at : List Request → Client → Client
closed_at [] s = lost [] s
closed_at (r ∷ rest) s = closed_stream r.raw_stream r rest s

unfoldable pub on_close : Client → Client
on_close s = closed_at s.queue (record s { is_connected = false; buffer = [] })

-- the timeout of the request in flight, or a write that fails
unfoldable pub drop_head : Outcome → List Request → Client → Client
drop_head o [] s = s
drop_head o (r ∷ rest) s =
    if r.timer then process_next (settle r o (record s { queue = rest })) else s

unfoldable pub on_timeout : Client → Client
on_timeout s = drop_head timed_out s.queue s

unfoldable pub on_write_error : Client → Client
on_write_error s = drop_head write_failed s.queue s

-- a connection that was made: of `ensureConnection`, or of an attempt to reconnect
abbrev pub connected : Client → Client
connected s = record s { is_connected = true; buffer = [] }

unfoldable pub ensure_connection : Client → Client
ensure_connection s = if s.is_connected || s.is_reconnecting then s else connected s

unfoldable pub on_reconnected : Client → Client
on_reconnected s = process_next (record (connected s) { is_reconnecting = false })

-- the last attempt failed
unfoldable pub give_up : Client → Client
give_up s = reject_all gave_up s.queue (record s { is_reconnecting = false })

-- `closeConnection`, which `stop` and `destroy` call
unfoldable pub close_connection : Client → Client
close_connection s =
    reject_all closed s.queue
      (record s { is_connected = false; buffer = []; is_reconnecting = false })

unfoldable pub stop : Client → Client
stop s = close_connection (record s { continues = false })

unfoldable pub new : Client
new = record {
  queue = [];
  settled = [];
  promises = 0;
  is_connected = false;
  buffer = [];
  written = [];
  is_reconnecting = false;
  continues = true;
  is_destroyed = false;
}

pub data Step : Type 0 where
  sends : Option (List ℕ) → List ℕ → Step
  connects : Step
  data_comes : List ℕ → Step
  closes : Step
  times_out : Step
  write_fails : Step
  reconnects : Step
  gives_up : Step
  stops : Step

unfoldable pub step : Step → Client → Client
step (sends transport command) s = send transport command s
step connects s = ensure_connection s
step (data_comes bytes) s = on_data bytes s
step closes s = on_close s
step times_out s = on_timeout s
step write_fails s = on_write_error s
step reconnects s = on_reconnected s
step gives_up s = give_up s
step stops s = stop s

unfoldable pub run : List Step → Client → Client
run [] s = s
run (e ∷ steps) s = run steps (step e s)
