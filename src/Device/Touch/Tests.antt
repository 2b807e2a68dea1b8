-- ===== src/Device/Touch/Tests.antt =====
-- A consumer on concrete steps.
use mercury_farm.Base.{ℕ, ◌≡◌, refl, false, List, [], ◌∷◌, ◌++◌}
use mercury_farm.Util.StateQueue.{next, empty, push, cut_after}
use mercury_farm.Device.Touch.{
  start_state, stop_state, ensured, ensure_state, desire, released, start_with, Step, starts, stops,
  configures, touches, stream_ends, service_starts, connects, banner_arrives, stopping_ends,
  start_breaks, failing_ends, immediate, step, run,
}
use mercury_farm.Device.Touch.State.{
  stopped, started, Banner, commit, reset, up, new, perform, queue_write, queue_at, flush,
  process_write_queue, state_started,
}
use mercury_farm.Device.Touch.Unwritten.{Written}
use mercury_farm.Device.Touch.Writes.{run-Written}
use mercury_farm.Device.Touch.Locks.{Locks, run-Locks}
use mercury_farm.Device.Touch.Aims.{number_of}
use mercury_farm.Device.Touch.Follows.{run-follows}
use mercury_farm.Device.Touch.Settles.{settled, rounds-settle}
use mercury_farm.Device.Touch.Broken.{broken_start-is_final}

abbrev banner : Banner
banner = record { pid = 7; max_x = 100; max_y = 200; max_pressure = 50 }

abbrev session : List Step
session =
    starts
    ∷ touches (up 1)
    ∷ service_starts
    ∷ connects
    ∷ stops
    ∷ banner_arrives banner
    ∷ touches commit
    ∷ starts
    ∷ stopping_ends
    ∷ service_starts
    ∷ connects
    ∷ banner_arrives banner
    ∷ touches reset
    ∷ []

session_ends : (run session new).running ≡ started
unfolding run new step desire push cut_after ensure_state empty ensured start_state stop_state next
    queue_write queue_at perform start_with process_write_queue flush released
session_ends = refl

session_lock : (run session new).lock ≡ false
unfolding run new step desire push cut_after ensure_state empty ensured start_state stop_state next
    queue_write queue_at perform start_with process_write_queue flush released
session_lock = refl

session_immediates : (run session new).immediates ≡ 0
unfolding run new step desire push cut_after ensure_state empty ensured start_state stop_state next
    queue_write queue_at perform start_with process_write_queue flush released
session_immediates = refl

run-Locks_example : Locks (run session new)
run-Locks_example = run-Locks session

run-Written_example : Written (up 1 ∷ commit ∷ reset ∷ []) (run session new)
run-Written_example = run-Written session refl

run-follows_example : number_of (run session new).running ≡ state_started
run-follows_example = run-follows session refl session_lock session_immediates

abbrev before : List Step
before = service_starts ∷ stops ∷ connects ∷ []

abbrev between : List Step
between = touches commit ∷ immediate ∷ []

abbrev after : List Step
after = touches commit ∷ stream_ends 5 ∷ configures ∷ []

abbrev some_time : ℕ
some_time = 3

broken_start-is_final_example :
    (run
      (starts ∷ before ++ start_breaks false ∷ between ++ failing_ends some_time ∷ after)
      new).running
    ≡ stopped
unfolding new
broken_start-is_final_example =
    broken_start-is_final new before false between some_time after
      (record {
        of_running = refl;
        of_op = refl;
        of_lock = refl;
        of_failed = refl;
        of_restarts = refl;
        of_desired = refl;
      })
      refl refl refl

abbrev requests : List Step
requests = starts ∷ stops ∷ touches commit ∷ starts ∷ service_starts ∷ stops ∷ starts ∷ []

rounds-settle_example :
    ((settled requests banner).lock ≡ false)
    × ((settled requests banner).immediates ≡ 0)
    × (number_of (settled requests banner).running ≡ state_started)
rounds-settle_example = rounds-settle requests banner refl
