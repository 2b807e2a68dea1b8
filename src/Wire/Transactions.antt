-- ===== src/Wire/Transactions.antt =====
-- lib/wire/transmanager.js: transactions that wait for their TransactionDoneMessage. A channel stands
-- for the fresh name that uuid gives. The routers call every listener that is registered when a
-- message comes. What the JSON of a body stands for is a number.
pub mod Once
pub mod Crosstalk
mod Tests
use mercury_farm.Base.{ℕ, ◌+◌, Bool, true, false, List, [], ◌∷◌, ◌++◌, ◌==◌, if◌then◌else◌}

pub data Outcome : Type 0 where
  -- the message's success, and what it carries
  done : Bool → ℕ → Outcome
  timeout : Outcome

-- Who waits has a listener and a timer.
pub record Manager : Type 0 where
  pub subscribed : List ℕ
  pub waiting : List ℕ
  pub settled : List (ℕ × Outcome)
  pub pushed : List ℕ
  pub begun : ℕ

unfoldable pub new : Manager
new = record { subscribed = []; waiting = []; settled = []; pushed = []; begun = 0 }

-- `runTransaction` and `runTransactionDev`, up to their wait
unfoldable pub begin : Manager → Manager
begin s = record s {
  subscribed = s.subscribed ++ s.begun ∷ [];
  waiting = s.waiting ++ s.begun ∷ [];
  pushed = s.pushed ++ s.begun ∷ [];
  begun = s.begun + 1;
}

unfoldable pub mem : ℕ → List ℕ → Bool
mem c [] = false
mem c (x ∷ xs) = if x == c then true else mem c xs

unfoldable pub without : ℕ → List ℕ → List ℕ
without c [] = []
without c (x ∷ xs) = let rest = without c xs in if x == c then rest else x ∷ rest

-- the timer is cleared, the channel is no longer subscribed to and the listener is removed
abbrev pub settle : ℕ → Outcome → Manager → Manager
settle c o s = record s {
  subscribed = without c s.subscribed;
  waiting = without c s.waiting;
  settled = s.settled ++ (c, o) ∷ [];
}

-- a message on a channel, where the listeners are by the channel
unfoldable pub on_done : ℕ → Outcome → Manager → Manager
on_done c o s = if mem c s.waiting then settle c o s else s

unfoldable pub on_timeout : ℕ → Manager → Manager
on_timeout c s = if mem c s.waiting then settle c timeout s else s

unfoldable pub settle_all : List ℕ → Outcome → Manager → Manager
settle_all [] o s = s
settle_all (c ∷ cs) o s = settle_all cs o (settle c o s)

-- and where they are by the type of the message
unfoldable pub on_done_dev : ℕ → Outcome → Manager → Manager
on_done_dev c o s = settle_all s.waiting o s

pub data Step : Type 0 where
  begins : Step
  done_comes : ℕ → Bool → ℕ → Step
  times_out : ℕ → Step

unfoldable pub step : Step → Manager → Manager
step begins s = begin s
step (done_comes c success body) s = on_done c (done success body) s
step (times_out c) s = on_timeout c s

unfoldable pub run : List Step → Manager → Manager
run [] s = s
run (e ∷ steps) s = run steps (step e s)
