-- ===== src/Util/ProcessManager/Tests.antt =====
-- Runs of the manager, and its theorems on a small one.
use mercury_farm.Base.{ℕ, ◌+◌, ◌≡◌, refl, true, false, none, some, List, [], ◌∷◌}
use mercury_farm.Util.ProcessManager.{
  waiting, starting, Process, Manager, find, delete, has, create, start, started, spawns,
  begin_remove, finish_remove, claim, added, allocate,
}
use mercury_farm.Util.ProcessManager.Calls.{Call, creates, starts, is_ready, removes, run}
use mercury_farm.Util.ProcessManager.Ports.{copies, count, IsIdle, run-copies}
use mercury_farm.Util.ProcessManager.Twice.{released_twice}

-- two ports, of which the process of the phone holds the first
abbrev phone : Process
phone = record {
  id = "phone";
  state = starting;
  start_time = 100;
  resources = 7400 ∷ [];
  timer = none;
  expected_stop = false;
  terminate_handler = none;
}

abbrev manager : Manager
manager = record {
  processes = phone ∷ [];
  resource_pool = some (7401 ∷ []);
  startup_timeout = some 50;
  removing = [];
}

abbrev manager-IsIdle : IsIdle manager
manager-IsIdle = record { none_removed = refl; has_pool = refl }

tablet_added : (create 200 "tablet" waiting 1 manager).0.resource_pool ≡ some []
unfolding create has find claim added allocate
tablet_added = refl

abbrev calls : List (ℕ × Call)
calls =
    (200, creates "tablet" waiting 1)
    ∷ (300, starts "tablet" false)
    ∷ (310, is_ready "tablet")
    ∷ (400, removes "phone")
    ∷ []

run-copies_example : copies 7400 (run calls manager) ≡ copies 7400 manager
run-copies_example = run-copies 7400 calls manager manager-IsIdle

found : find "phone" (phone ∷ []) ≡ some phone
unfolding find
found = refl

once_only : find "phone" (delete "phone" (phone ∷ [])) ≡ none
unfolding find delete
once_only = refl

released_twice_example :
    copies 7400
      (finish_remove (finish_remove (begin_remove "phone" (begin_remove "phone" manager))))
    ≡ copies 7400 manager + count 7400 (7400 ∷ [])
released_twice_example = released_twice 7400 "phone" manager phone manager-IsIdle found once_only

known : has "phone" manager ≡ true
unfolding has find
known = refl

spawns_again : (start 500 "phone" true manager).1 ≡ spawns
unfolding start started find
spawns_again = refl
