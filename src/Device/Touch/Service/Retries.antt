-- ===== src/Device/Touch/Service/Retries.antt =====
-- How long the attempts to connect to the service can take.
use mercury_farm.Base.{ℕ, suc, zero, ◌+◌, ◌*◌, ◌≤◌, List, [], ◌∷◌, arith}
use mercury_farm.Device.Touch.Service.{Attempt, opens, closes, breaks, try_connect, connect_service}

abbrev pub total : List ℕ → ℕ
total [] = 0
total (n ∷ ns) = n + total ns

-- each wait is twice the one before it
abbrev doubling : ℕ → ℕ → ℕ
doubling zero delay = 0
doubling (suc n) delay = delay + doubling n (delay * 2)

try_connect-total :
    (n delay : ℕ) (attempts : List Attempt)
    → total (try_connect (suc n) delay attempts).0 ≤ doubling n delay
unfolding try_connect
try_connect-total n delay [] = omega arith
try_connect-total n delay (opens ∷ attempts) = omega arith
try_connect-total n delay (breaks ∷ attempts) = omega arith
try_connect-total zero delay (closes ∷ attempts) = omega arith
try_connect-total (suc n) delay (closes ∷ attempts) =
    omega (arith, try_connect-total n (delay * 2) attempts)

-- `_connectService` waits 6.3 seconds at most.
pub connect_service-total : (attempts : List Attempt) → total (connect_service attempts).0 ≤ 6300
unfolding connect_service
connect_service-total attempts = try_connect-total 6 100 attempts
