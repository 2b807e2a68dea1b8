-- ===== src/Device/Touch/State.antt =====
-- lib/units/device/plugins/touch/index.js: the state of a consumer, and its writers.
use mercury_farm.Base.{
  ℕ, Bool, true, false, not, ◌&&◌, ◌||◌, Option, none, List, [], ◌∷◌, ◌++◌, if◌then◌else◌, is_some,
}
use mercury_farm.Util.FailCounter.{FailCounter}
use mercury_farm.Util.FailCounter

pub data Running : Type 0 where
  stopped starting started stopping : Running

-- `STATE_STOPPED` and `STATE_STARTED`, in the queue of desired states
abbrev pub state_stopped : ℕ
state_stopped = 1

abbrev pub state_started : ℕ
state_started = 3

pub record Banner : Type 0 where
  pub pid : ℕ
  pub max_x : ℕ
  pub max_y : ℕ
  pub max_pressure : ℕ

-- the coordinates and the pressure are floats, as their bits
pub record Point : Type 0 where
  pub contact : ℕ
  pub x : ℕ
  pub y : ℕ
  pub pressure : ℕ

-- what is put into the queue of writers
pub data Writer : Type 0 where
  down move : Point → Writer
  up : ℕ → Writer
  commit reset : Writer

-- what `startState` or `stopState` awaits: the service, its socket, its banner, or the end of `_stop`,
-- after an error that is a cancellation or not, or of `stopState`
pub data Op : Type 0 where
  service connecting reading_banner ending : Op
  failing : Bool → Op

pub record Consumer : Type 0 where
  pub running : Running
  pub desired : List ℕ
  pub op : Option Op
  pub lock : Bool
  pub failed : Bool
  pub fail_counter : FailCounter
  -- whether `exceedLimit` is listened to
  pub listening : Bool
  -- the timers of recoveries, and whether `recoveryTimeoutID` is set
  pub timers : ℕ
  pub recovery : Bool
  pub immediates : ℕ
  -- the calls of `_stop` that `restart` and `_failLimitExceeded` have begun
  pub restarts : ℕ
  pub limit_stops : ℕ
  pub output : Bool
  pub socket : Bool
  pub banner : Option Banner
  pub write_queue : List Writer
  -- what has been written, each with the banner at that time
  pub written : List (Writer × Option Banner)

unfoldable pub new_counter : FailCounter
new_counter = FailCounter.new 3 10000

unfoldable pub new : Consumer
new = record {
  running = stopped;
  desired = [];
  op = none;
  lock = false;
  failed = false;
  fail_counter = new_counter;
  listening = true;
  timers = 0;
  recovery = false;
  immediates = 0;
  restarts = 0;
  limit_stops = 0;
  output = false;
  socket = false;
  banner = none;
  write_queue = [];
  written = [];
}

abbrev pub needs_banner : Writer → Bool
needs_banner (down p) = true
needs_banner (move p) = true
needs_banner _ = false

-- a writer runs; without a banner it is a TypeError
unfoldable pub perform : Writer → Consumer → Consumer
perform w s =
    if s.socket && (not (needs_banner w) || is_some s.banner)
    then record s { written = s.written ++ (w, s.banner) ∷ [] }
    else s

-- `_queueWrite`
unfoldable pub queue_at : Running → Writer → Consumer → Consumer
queue_at started w s = perform w s
queue_at _ w s = record s { write_queue = s.write_queue ++ w ∷ [] }

unfoldable pub queue_write : Writer → Consumer → Consumer
queue_write w s = queue_at s.running w s

-- `_processWriteQueue`
unfoldable pub flush : List Writer → Consumer → Consumer
flush [] s = s
flush (w ∷ ws) s = flush ws (perform w s)

unfoldable pub process_write_queue : Consumer → Consumer
process_write_queue s = flush s.write_queue (record s { write_queue = [] })
