-- ===== src/Device/Touch.antt =====
-- lib/units/device/plugins/touch/index.js: the touches of a device, and the minitouch service that takes
-- them. A step is a call, an event, or the end of what a call awaits. The stream that logs what the
-- service says is left out.
pub mod State
pub mod Locks
pub mod Unwritten
pub mod Flush
pub mod Writes
pub mod Aims
pub mod Follows
pub mod Work
pub mod Settles
pub mod Stays
pub mod Failing
pub mod Underway
pub mod Broken
pub mod Service
mod Tests
use mercury_farm.Base.{
  ℕ, ◌+◌, ◌-◌, Bool, true, false, not, ◌&&◌, ◌||◌, Option, none, some, List, [], ◌∷◌, ◌++◌, ◌==◌,
  if◌then◌else◌, is_some,
}
use mercury_farm.Util.StateQueue.{next, empty, push}
use mercury_farm.Util.FailCounter.{FailCounter}
use mercury_farm.Util.FailCounter
use mercury_farm.Device.Touch.State.{
  Running, stopped, starting, started, stopping, state_stopped, state_started, Banner, Point,
  Writer, down, move, up, commit, reset, Op, service, connecting, reading_banner, ending, failing,
  Consumer, new_counter, new, needs_banner, perform, queue_at, queue_write, flush,
  process_write_queue,
}

abbrev pub is_next : ℕ → Option ℕ → Bool
is_next state none = false
is_next state (some n) = n == state

-- `startState` and `stopState`, up to what they await first
unfoldable pub start_state : Consumer → Consumer
start_state s =
    let n = next s.desired in
    if is_next state_started n.0
    then record s { desired = n.1; running = starting; op = some service }
    else record s { desired = n.1; lock = false; immediates = s.immediates + 1 }

unfoldable pub stop_state : Consumer → Consumer
stop_state s =
    let n = next s.desired in
    if is_next state_stopped n.0
    then record s { desired = n.1; running = stopping; op = some ending }
    else record s { desired = n.1; lock = false; immediates = s.immediates + 1 }

-- the switch of `_ensureState`
unfoldable pub ensured : Running → Consumer → Consumer
ensured starting s = s
ensured stopping s = s
ensured stopped s = start_state s
ensured started s = stop_state s

unfoldable pub ensure_state : Consumer → Consumer
ensure_state s =
    if empty s.desired || (s.failed || s.lock)
    then s
    else ensured s.running (record s { lock = true })

-- `start`, `stop`
unfoldable pub desire : ℕ → Consumer → Consumer
desire state s = ensure_state (record s { desired = push state s.desired })

-- `restart`, up to its await and from there
unfoldable pub restart_at : Running → Consumer → Consumer
restart_at started s = record s { restarts = s.restarts + 1 }
restart_at starting s = record s { restarts = s.restarts + 1 }
restart_at _ s = s

unfoldable pub restart : Consumer → Consumer
restart s = restart_at s.running s

-- `_stop`, once it ends
abbrev pub finish_stop : Consumer → Consumer
finish_stop s = record s { running = stopped; output = false; socket = false; banner = none }

unfoldable pub restarted : Consumer → Consumer
restarted s = ensure_state (record (finish_stop s) {
  restarts = s.restarts - 1;
  desired = push state_started (push state_stopped s.desired);
})

-- `_failLimitExceeded`
abbrev pub fail_limit_exceeded : Consumer → Consumer
fail_limit_exceeded s = record s {
  limit_stops = s.limit_stops + 1;
  failed = true;
  timers = s.timers + 1;
  recovery = true;
}

unfoldable pub inc : ℕ → Consumer → Consumer
inc now s =
    let c = FailCounter.inc now s.fail_counter in
    let t = record s { fail_counter = c.0 } in
    if c.1 && s.listening then fail_limit_exceeded t else t

-- when the timer fires
unfoldable pub recovered : Consumer → Consumer
recovered s = desire state_started (record s {
  timers = s.timers - 1;
  recovery = false;
  failed = false;
  fail_counter = new_counter;
  listening = true;
})

-- the `finally` of `startState` and `stopState`
unfoldable pub released : Consumer → Consumer
released s = ensure_state (record s { lock = false; op = none })

-- `startState` with the banner, to its end or to an error
unfoldable pub start_with : Banner → Consumer → Consumer
start_with b s =
    let t = record s { banner = some b } in
    if s.socket
    then released (record (process_write_queue t) { running = started })
    else record t { op = some (failing false) }

unfoldable pub failed_start : Bool → ℕ → Consumer → Consumer
failed_start is_cancelled now s =
    released (if is_cancelled then finish_stop s else inc now (finish_stop s))

unfoldable pub destroy : Consumer → Consumer
destroy s = record s {
  timers = if s.recovery then s.timers - 1 else s.timers;
  recovery = false;
  listening = false;
  write_queue = [];
}

pub data Step : Type 0 where
  starts stops configures : Step
  touches : Writer → Step
  -- `unexpectedEnd` of the socket or the output, and the time
  stream_ends : ℕ → Step
  immediate recovers restart_stops limit_stops destroys : Step
  -- what `startState` and `stopState` await
  service_starts connects : Step
  banner_arrives : Banner → Step
  start_breaks : Bool → Step
  failing_ends : ℕ → Step
  stopping_ends : Step

abbrev pub code : Op → ℕ
code service = 0
code connecting = 1
code reading_banner = 2
code ending = 3
code (failing false) = 4
code (failing true) = 5

abbrev pub is_at : Op → Option Op → Bool
is_at o none = false
is_at o (some p) = code p == code o

abbrev pub is_starting : Option Op → Bool
is_starting op = is_at service op || (is_at connecting op || is_at reading_banner op)

unfoldable pub step : Step → Consumer → Consumer
step starts s = desire state_started s
step stops s = desire state_stopped s
step configures s = restart s
step (touches w) s = queue_write w s
step (stream_ends now) s = restart (inc now s)
step immediate s =
    if s.immediates == 0 then s else ensure_state (record s { immediates = s.immediates - 1 })
step recovers s = if s.timers == 0 then s else recovered s
step restart_stops s = if s.restarts == 0 then s else restarted s
step Step.limit_stops s =
    if s.limit_stops == 0 then s else record (finish_stop s) { limit_stops = s.limit_stops - 1 }
step destroys s = destroy s
step service_starts s =
    if is_at service s.op then record s { output = true; op = some connecting } else s
step connects s =
    if is_at connecting s.op then record s { socket = true; op = some reading_banner } else s
step (banner_arrives b) s = if is_at reading_banner s.op then start_with b s else s
step (start_breaks c) s = if is_starting s.op then record s { op = some (failing c) } else s
step (failing_ends now) s =
    if is_at (failing true) s.op
    then failed_start true now s
    else (if is_at (failing false) s.op then failed_start false now s else s)
step stopping_ends s = if is_at ending s.op then released (finish_stop s) else s

unfoldable pub run : List Step → Consumer → Consumer
run [] s = s
run (t ∷ steps) s = run steps (step t s)
