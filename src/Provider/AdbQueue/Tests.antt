-- ===== src/Provider/AdbQueue/Tests.antt =====
-- The requests of lib/units/provider/ADBObserver.js on small inputs. The bytes are ASCII.
use mercury_farm.Base.{ℕ, ◌+◌, ◌≡◌, refl, true, none, some, List, [], ◌∷◌, ◌++◌, map, ltb, arith}
use mercury_farm.Provider.AdbWire.{frame, okay_status, fail_status, to_hex, pad_start}
use mercury_farm.Provider.AdbQueue.{
  Client, host_request, shell_request, on_data, new, stop, run, Step, sends, connects, data_comes,
  closes, times_out, reconnects, timed_out,
}
use mercury_farm.Provider.AdbQueue.Settles.{one, in_queue, in_settled}
use mercury_farm.Provider.AdbQueue.Promises.{run-settles_once, stop-settles_all}
use mercury_farm.Provider.AdbQueue.Responses.{
  waiting, resolved, response, concat, response-resolves, late-answers_next,
}
use mercury_farm.Provider.AdbQueue.Idle.{IdleBehind}
use mercury_farm.Provider.AdbQueue.InFlight.{run-IdleBehind}
use mercury_farm.Provider.AdbQueue.Tunnel.{tunnelling, transport-is_overtaken}

abbrev devices : List ℕ
devices = 104 ∷ 58 ∷ 100 ∷ []

abbrev version : List ℕ
version = 104 ∷ 58 ∷ 118 ∷ []

abbrev getprop : List ℕ
getprop = 115 ∷ 104 ∷ []

abbrev payload : List ℕ
payload = 97 ∷ 9 ∷ 98 ∷ []

abbrev online : Client
online = record new { is_connected = true; promises = 2 }

abbrev history : List Step
history =
    connects
    ∷ sends none devices
    ∷ sends (some version) getprop
    ∷ data_comes (okay_status ++ 48 ∷ [])
    ∷ times_out
    ∷ data_comes okay_status
    ∷ data_comes (49 ∷ 10 ∷ [])
    ∷ closes
    ∷ reconnects
    ∷ sends none devices
    ∷ data_comes (fail_status ++ frame payload)
    ∷ []

run-settles_once_example :
    in_queue 1 (run history new).queue + in_settled 1 (run history new).settled
    ≡ one (ltb 1 (run history new).promises)
run-settles_once_example = run-settles_once history 1

stop-settles_all_example :
    in_settled 1 (stop (run history new)).settled ≡ one (ltb 1 (stop (run history new)).promises)
stop-settles_all_example = stop-settles_all history 1

response_test :
    concat ((79 ∷ 75 ∷ []) ∷ (65 ∷ 89 ∷ 48 ∷ []) ∷ []) ++ 48 ∷ 48 ∷ 51 ∷ payload ≡ response payload
unfolding frame to_hex pad_start
response_test = refl

response-resolves_example :
    run
      (map data_comes
        (((79 ∷ 75 ∷ []) ∷ (65 ∷ 89 ∷ 48 ∷ []) ∷ []) ++ (48 ∷ 48 ∷ 51 ∷ payload) ∷ []))
      (waiting devices 0 [] [] online)
    ≡ resolved 0 payload [] online
response-resolves_example =
    response-resolves devices payload 0 [] ((79 ∷ 75 ∷ []) ∷ (65 ∷ 89 ∷ 48 ∷ []) ∷ []) 48
      (48 ∷ 51 ∷ payload) online (omega arith) response_test

late-answers_next_example :
    run
      (times_out ∷ data_comes (response payload) ∷ [])
      (waiting devices 0 (host_request version 1 ∷ []) [] online)
    ≡ resolved 1 payload []
        (record online { settled = (0, timed_out) ∷ []; written = frame version ∷ [] })
unfolding new
late-answers_next_example =
    late-answers_next devices version payload 0 1 [] online (omega arith) refl

transport-is_overtaken_example :
    on_data okay_status (tunnelling version getprop 0 (host_request devices 1) [] online)
    ≡ record online {
      queue = (record (host_request devices 1) { timer = true }) ∷ shell_request getprop 0 ∷ [];
      buffer = [];
      written = frame devices ∷ [];
    }
unfolding host_request new
transport-is_overtaken_example =
    transport-is_overtaken version getprop 0 (host_request devices 1) [] online refl refl

run-IdleBehind_example : IdleBehind (run history new).queue
run-IdleBehind_example = run-IdleBehind history
