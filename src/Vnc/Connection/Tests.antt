-- ===== src/Vnc/Connection/Tests.antt =====
-- A handshake with a checked response, and the theorems at it.
use mercury_farm.Base.{◌≡◌, refl, true, false, List, [], ◌∷◌, ◌++◌, replicate}
use mercury_farm.Vnc.Connection.Types.{
  Options, wrote, authenticated, user_activity, pointer, append, consume,
}
use mercury_farm.Vnc.Connection.Messages.{
  version_bytes, parse_version, parse_security, by_type, server_init,
}
use mercury_farm.Vnc.Connection.Machine.{
  new, Event, arrives, auth_ok, run, on_event, unguarded_read, rounds, round, on_chunk, full_rounds,
  waits,
}
use mercury_farm.Vnc.Connection.Fuel.{rounds-full}
use mercury_farm.Vnc.Connection.Requests.{fresh, guarded, run-guarded}
use mercury_farm.Vnc.Connection.Auth.{accepts, authenticated_needs_check}

abbrev offer : Options
offer = record {
  security = record { type = 2; challenge = 1 ∷ 2 ∷ [] } ∷ [];
  width = 100;
  height = 200;
  name = b'v' ∷ [];
  big_endian = false;
}

-- a client that sends its version and the type VNC, its response, its share flag and a click
abbrev client : List Event
client =
    arrives (version_bytes b'8' ++ 2 ∷ [])
    ∷ arrives (replicate 16 7)
    ∷ auth_ok
    ∷ arrives (1 ∷ 5 ∷ 1 ∷ 0 ∷ 50 ∷ [])
    ∷ arrives (0 ∷ 60 ∷ [])
    ∷ []

client_clicks :
    (run client (fresh offer)).effects
    ≡ wrote (version_bytes b'8')
      ∷ wrote (1 ∷ 2 ∷ [])
      ∷ wrote (1 ∷ 2 ∷ [])
      ∷ wrote (0 ∷ 0 ∷ 0 ∷ 0 ∷ [])
      ∷ authenticated
      ∷ wrote (
          0 ∷ 100 ∷ 0 ∷ 200 ∷ 32 ∷ 24 ∷ 0 ∷ 1 ∷ 0 ∷ 255 ∷ 0 ∷ 255 ∷ 0 ∷ 255 ∷ 16 ∷ 8 ∷ 0 ∷ 0 ∷ 0 ∷ 0
          ∷ 0 ∷ 0 ∷ 0 ∷ 1 ∷ b'v' ∷ [])
      ∷ user_activity
      ∷ pointer 1 (50, 100) (60, 200)
      ∷ []
unfolding new run on_event unguarded_read rounds round append consume parse_version parse_security
    by_type server_init on_chunk
client_clicks = refl

run-guarded_example : guarded false (run client (fresh offer)).effects ≡ true
run-guarded_example = run-guarded offer client

authenticated_needs_check_example : accepts client ≡ true
unfolding new run on_event unguarded_read rounds round append consume parse_version parse_security
    by_type server_init on_chunk
authenticated_needs_check_example = authenticated_needs_check offer client refl refl

abbrev waiting_client : List Event
waiting_client = arrives (version_bytes b'8') ∷ []

rounds-full_example :
    round
      (rounds
        (full_rounds (run waiting_client (fresh offer)).vnc)
        (run waiting_client (fresh offer)).vnc).0
    ≡ waits
unfolding new run on_event unguarded_read rounds round append consume parse_version parse_security
    by_type server_init on_chunk
rounds-full_example = rounds-full (run waiting_client (fresh offer)).vnc refl
