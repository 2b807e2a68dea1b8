-- ===== src/Util/FailCounter.antt =====
-- lib/util/failcounter.js: too many failures in a stretch of time. The current time is an argument.
pub mod Recent
mod Tests
use mercury_farm.Base.{
  ℕ, ◌+◌, Bool, true, false, List, [], ◌∷◌, ◌++◌, length, ltb, leb, if◌then◌else◌,
}

pub record FailCounter : Type 0 where
  pub threshold : ℕ
  pub time : ℕ
  pub values : List ℕ

unfoldable pub new : ℕ → ℕ → FailCounter
new threshold time = record { threshold = threshold; time = time; values = [] }

-- The loop: values leave the front while they are too old; `now - value >= time`, with the value on
-- the other side.
unfoldable pub expire : ℕ → ℕ → List ℕ → List ℕ
expire now time [] = []
expire now time (v ∷ values) =
    let rest = expire now time values in if leb (v + time) now then rest else v ∷ values

-- `inc`, and whether `exceedLimit` is emitted
unfoldable pub inc : ℕ → FailCounter → FailCounter × Bool
inc now c =
    let values = expire now c.time c.values ++ now ∷ [] in
    (record c { values = values }, ltb c.threshold (length values))

-- what a sequence of calls emits
unfoldable pub run : List ℕ → FailCounter → FailCounter × List Bool
run [] c = (c, [])
run (now ∷ times) c =
    let (next, out) = inc now c in let (last, rest) = run times next in (last, out ∷ rest)
