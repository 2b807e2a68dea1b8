-- ===== src/Wire/Transactions/Tests.antt =====
-- The transactions of lib/wire/transmanager.js on small inputs.
use mercury_farm.Base.{◌≡◌, refl, true, false, List, [], ◌∷◌, ◌++◌, map}
use mercury_farm.Wire.Transactions.{
  done, timeout, Manager, new, begin, mem, without, on_done, on_timeout, on_done_dev, Step, begins,
  done_comes, times_out, step, run,
}
use mercury_farm.Wire.Transactions.Once.{Accounts, run-Accounts}
use mercury_farm.Wire.Transactions.Crosstalk.{on_done_dev-settles_all}

abbrev history : List Step
history = begins ∷ begins ∷ done_comes 1 true 7 ∷ done_comes 1 false 8 ∷ times_out 0 ∷ begins ∷ []

run-Accounts_example : Accounts (run history new)
run-Accounts_example = run-Accounts history

abbrev two : Manager
two = record new { subscribed = 0 ∷ 1 ∷ []; waiting = 0 ∷ 1 ∷ []; begun = 2 }

on_done_dev-settles_all_example :
    ((on_done_dev 1 (done true 7) two).settled
      ≡ two.settled ++ map (λ d. (d, done true 7)) (0 ∷ 1 ∷ []))
    × ((on_done_dev 1 (done true 7) two).waiting ≡ [])
on_done_dev-settles_all_example = on_done_dev-settles_all 1 (done true 7) two

once_test : (run history new).settled ≡ (1, done true 7) ∷ (0, timeout) ∷ []
unfolding run step begin on_done on_timeout mem without new
once_test = refl
