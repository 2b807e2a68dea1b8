-- ===== src/Util/ProcessManager/Ports.antt =====
-- How many of each port lib/util/ProcessManager.js holds, in its pool and in its processes.
use mathlib.Core.Path.{subst}
use mercury_farm.Base.{
  ℕ, zero, suc, ◌+◌, ◌≡◌, refl, sym, ap, ◌∙◌, Bool, true, Option, none, some, List, [], ◌∷◌, ◌++◌,
  arith, length, take, drop, ◌==◌, if◌then◌else◌, if-cases, ltb, not, ◌&&◌, is_some,
}
use mercury_farm.Base.Text.{String, str_eq}
use mercury_farm.Util.ProcessManager.{
  allocate, release, State, Process, Removal, Manager, find, update, delete, has, change, claim,
  create, Starting, start, update_terminate_handler, handle_ready, restart, stop, begin_remove,
  finish_remove, set_state, set_timer, clear_timer, claimed, added, started, begun, finished,
  returned, new_process, as_starting, stopping, is_running,
}
use mercury_farm.Util.ProcessManager.Calls.{
  Call, creates, starts, spawned, is_ready, wait_is_over, stops, removes, clears_timer, sets_state,
  sets_timer, step, run, remove,
}

-- how often a port stands in a list, in the processes, and in the manager
abbrev pub count : ℕ → List ℕ → ℕ
count port [] = 0
count port (x ∷ xs) = if x == port then count port xs + 1 else count port xs

abbrev pub held : ℕ → List Process → ℕ
held port [] = 0
held port (p ∷ ps) = count port p.resources + held port ps

abbrev pub pooled : ℕ → Option (List ℕ) → ℕ
pooled port none = 0
pooled port (some xs) = count port xs

abbrev pub copies : ℕ → Manager → ℕ
copies port m = pooled port m.resource_pool + held port m.processes

pub count-append :
    (port : ℕ) (xs ys : List ℕ) → count port (xs ++ ys) ≡ count port xs + count port ys
count-append port [] ys = omega arith
count-append port (x ∷ xs) ys = ground (arith, count-append port xs ys)

count-take-drop :
    (port n : ℕ) (xs : List ℕ) → count port (take n xs) + count port (drop n xs) ≡ count port xs
count-take-drop port zero xs = omega arith
count-take-drop port (suc n) [] = omega arith
count-take-drop port (suc n) (x ∷ xs) = ground (arith, count-take-drop port n xs)

held-append : (port : ℕ) (ps qs : List Process) → held port (ps ++ qs) ≡ held port ps + held port qs
held-append port [] qs = omega arith
held-append port (p ∷ ps) qs = omega (arith, held-append port ps qs)

held-update :
    (port : ℕ) (id : String) (f : Process → Process)
    → ((p : Process) → (f p).resources ≡ p.resources)
    → (ps : List Process) → held port (update id f ps) ≡ held port ps
unfolding update
held-update port id f same [] = refl
held-update port id f same (p ∷ ps) =
    if-cases (λ qs. held port qs ≡ held port (p ∷ ps)) (str_eq p.id id)
      (λ _. ap (λ r. count port r + held port ps) (same p))
      (λ _. ap (λ n. count port p.resources + n) (held-update port id f same ps))

copies-change :
    (port : ℕ) (id : String) (f : Process → Process) (m : Manager)
    → ((p : Process) → (f p).resources ≡ p.resources)
    → copies port (change id f m) ≡ copies port m
copies-change port id f m same =
    ap (λ n. pooled port m.resource_pool + n) (held-update port id f same m.processes)

pub held-delete :
    (port : ℕ) (id : String) (ps : List Process) (p : Process)
    → find id ps ≡ some p
    → count port p.resources + held port (delete id ps) ≡ held port ps
unfolding find delete
held-delete port id [] p e = absurd (ground arith)
held-delete port id (q ∷ qs) p e = ground (arith, held-delete port id qs p)

pub delete-update :
    (id : String) (f : Process → Process)
    → ((p : Process) → (f p).id ≡ p.id)
    → (ps : List Process) → delete id (update id f ps) ≡ delete id ps
unfolding delete update
delete-update id f same [] = refl
delete-update id f same (p ∷ ps) = ground (arith, same p, delete-update id f same ps)

-- A manager with a pool, where no removal is under way.
pub record IsIdle (m : Manager) : Type 0 where
  pub none_removed : m.removing ≡ []
  pub has_pool : is_some m.resource_pool ≡ true

-- what one call leaves
Keeps : ℕ → Manager → Manager → Type 0
Keeps port m n = IsIdle n × (copies port n ≡ copies port m)

change-Keeps :
    (port : ℕ) (id : String) (f : Process → Process) (m : Manager)
    → ((p : Process) → (f p).resources ≡ p.resources)
    → IsIdle m
    → Keeps port m (change id f m)
unfolding Keeps
change-Keeps port id f m same i = (
  record { none_removed = i.none_removed; has_pool = i.has_pool },
  copies-change port id f m same,
)

pub pooled-returned :
    (port : ℕ) (xs : List ℕ) (pool : Option (List ℕ))
    → is_some pool ≡ true
    → (is_some (returned xs pool) ≡ true)
      × (pooled port (returned xs pool) ≡ pooled port pool + count port xs)
unfolding returned release
pooled-returned port xs none h = absurd (ground arith)
pooled-returned port xs (some av) h = (refl, count-append port av xs)

begun-Keeps :
    (port : ℕ) (id : String) (m : Manager) (o : Option Process)
    → find id m.processes ≡ o
    → IsIdle m
    → Keeps port m (finish_remove (begun id m o))
unfolding begun finish_remove finished stop Keeps
begun-Keeps port id m none e i =
    subst (λ rs. Keeps port m (finished m rs)) (sym i.none_removed) (i, refl)
begun-Keeps port id m (some p) e i =
    let r : Removal = record { id = id; resources = p.resources } in
    let (has_pool, back) = pooled-returned port p.resources m.resource_pool i.has_pool in
    subst (λ rs. Keeps port m (finished (begun id m (some p)) (rs ++ r ∷ []))) (sym i.none_removed)
      (
        record { none_removed = refl; has_pool = has_pool },
        rw (back, delete-update id stopping (λ _. refl) m.processes)
            (omega (arith, held-delete port id m.processes p e)),
      )

remove-Keeps : (port : ℕ) (id : String) (m : Manager) → IsIdle m → Keeps port m (remove id m)
unfolding remove begin_remove
remove-Keeps port id m i = begun-Keeps port id m (find id m.processes) refl i

-- what a claim takes is missing in the pool
Claims : ℕ → Option (List ℕ) → Option (List ℕ × Option (List ℕ)) → Type 0
Claims port pool none = Unit
Claims port pool (some (taken, left)) =
    (count port taken + pooled port left ≡ pooled port pool) × (is_some left ≡ is_some pool)

claim-Claims : (port : ℕ) (pool : Option (List ℕ)) (n : ℕ) → Claims port pool (claim pool n)
unfolding claim Claims allocate
claim-Claims port none n = (refl, refl)
claim-Claims port (some available) zero = (omega arith, refl)
claim-Claims port (some available) (suc n) =
    if-cases (λ o. Claims port (some available) (claimed o)) (ltb (length available) (suc n))
      (λ _. tt) (λ _. (count-take-drop port (suc n) available, refl))

added-Keeps :
    (port now : ℕ) (id : String) (state : State) (m : Manager)
    (o : Option (List ℕ × Option (List ℕ)))
    → Claims port m.resource_pool o
    → IsIdle m
    → Keeps port m (added now id state m o).0
unfolding added Claims Keeps
added-Keeps port now id state m none c i = (i, refl)
added-Keeps port now id state m (some (taken, left)) c i = (
  record { none_removed = i.none_removed; has_pool = c.1 ∙ i.has_pool },
  omega (arith, c.0, held-append port m.processes (new_process now id state taken ∷ [])),
)

create-Keeps :
    (port now : ℕ) (id : String) (state : State) (n : ℕ) (m : Manager)
    → IsIdle m
    → Keeps port m (create now id state n m).0
unfolding create Keeps
create-Keeps port now id state n m i =
    if-cases (λ (r : Manager × Bool). Keeps port m r.0) (has id m) (λ _. (i, refl))
      (λ _. added-Keeps port now id state m _ (claim-Claims port m.resource_pool n) i)

started-Keeps :
    (port now : ℕ) (id : String) (force : Bool) (m : Manager) (o : Option Process)
    → IsIdle m
    → Keeps port m (started now id force m o).0
unfolding started Keeps
started-Keeps port now id force m none i = (i, refl)
started-Keeps port now id force m (some p) i =
    if-cases (λ (r : Manager × Starting). Keeps port m r.0) (not force && is_running p.state)
      (λ _. (i, refl)) (λ _. change-Keeps port id (as_starting now) m (λ _. refl) i)

step-Keeps : (port now : ℕ) (call : Call) (m : Manager) → IsIdle m → Keeps port m (step now call m)
unfolding step start restart stop handle_ready update_terminate_handler set_state set_timer
    clear_timer Keeps
step-Keeps port now (creates id state n) m i = create-Keeps port now id state n m i
step-Keeps port now (starts id force) m i =
    started-Keeps port now id force m (find id m.processes) i
step-Keeps port now (spawned id child) m i = change-Keeps port id _ m (λ _. refl) i
step-Keeps port now (is_ready id) m i = change-Keeps port id _ m (λ _. refl) i
step-Keeps port now (wait_is_over id) m i =
    if-cases (λ (r : Manager × Starting). Keeps port m r.0) (has id m)
      (λ _. started-Keeps port now id true m (find id m.processes) i) (λ _. (i, refl))
step-Keeps port now (stops id) m i = change-Keeps port id stopping m (λ _. refl) i
step-Keeps port now (removes id) m i = remove-Keeps port id m i
step-Keeps port now (clears_timer id) m i = change-Keeps port id _ m (λ _. refl) i
step-Keeps port now (sets_state id state) m i = change-Keeps port id _ m (λ _. refl) i
step-Keeps port now (sets_timer id timer) m i = change-Keeps port id _ m (λ _. refl) i

-- Over any calls, where a removal is done before the next call, every port is in the pool and in
-- the processes as often as before, on a manager with a pool that is removing nothing.
pub run-copies :
    (port : ℕ) (calls : List (ℕ × Call)) (m : Manager)
    → IsIdle m
    → copies port (run calls m) ≡ copies port m
unfolding run Keeps
run-copies port [] m i = refl
run-copies port ((now, call) ∷ calls) m i =
    let (next, same) = step-Keeps port now call m i in
    run-copies port calls (step now call m) next ∙ same
