-- ===== src/Provider/AdbQueue/Tunnel.antt =====
-- The order of a device's command and the other requests in lib/units/provider/ADBObserver.js.
use mercury_farm.Base.{ℕ, ◌≡◌, refl, true, false, List, [], ◌∷◌, ◌++◌}
use mercury_farm.Provider.AdbWire.{frame, reply, okay_status, bytes_eq}
use mercury_farm.Provider.AdbQueue.{
  Request, Client, process_next, process_next_of, transport_request, shell_request, resolve_empty,
  okayed, replied, received, process_responses, on_data,
}

-- a transport is in flight and another request waits
abbrev pub tunnelling : List ℕ → List ℕ → ℕ → Request → List Request → Client → Client
tunnelling transport command promise next rest s = record s {
  queue = (record (transport_request transport command promise) { timer = true }) ∷ next ∷ rest;
  buffer = [];
}

-- If another request waits when a transport is answered with okay, then that request is what is
-- written next on the connection, and the device's command goes behind all that wait.
pub transport-is_overtaken :
    (transport command : List ℕ) (promise : ℕ) (next : Request) (rest : List Request) (s : Client)
    → s.is_connected ≡ true
    → next.timer ≡ false
    → on_data okay_status (tunnelling transport command promise next rest s) ≡ record s {
      queue = (record next { timer = true }) ∷ rest ++ shell_request command promise ∷ [];
      buffer = [];
      written = s.written ++ frame next.command ∷ [];
    }
unfolding on_data process_responses received transport_request replied reply bytes_eq okayed
    resolve_empty process_next process_next_of
transport-is_overtaken transport command promise next rest s connected idle =
    rw (idle, connected) refl
