-- ===== src/Util/ProcessManager/Health.antt =====
-- What the reports of the manager say of its processes.
use mathlib.Core.List.{Memᴰ}
use mathlib.Core.Path.{subst}
use mercury_farm.Base.{
  ℕ, ◌+◌, ◌≡◌, ◌<◌, ◌↔◌, refl, sym, ap, ◌∙◌, true, some, List, [], ◌∷◌, arith, length, if-cases,
}
use mercury_farm.Base.Text.{String}
use mercury_farm.Util.ProcessManager.{State, waiting, starting, running, Process, Manager}
use mercury_farm.Util.ProcessManager.Reports.{
  Stats, counted, grouped, get_stats, is_starting, is_stuck, stuck, check_health,
}

-- a process that has been starting for longer than a time
pub record IsLate (now timeout : ℕ) (id : String) (ps : List Process) : Type 0 where
  pub process : Process
  pub listed : Memᴰ process ps
  pub named : process.id ≡ id
  pub is_starting : process.state ≡ starting
  pub late : process.start_time + timeout < now

later :
    {now timeout : ℕ} {id : String} {p : Process} {ps : List Process}
    → IsLate now timeout id ps
    → IsLate now timeout id (p ∷ ps)
later l = record {
  process = l.process;
  listed = Memᴰ.tail l.listed;
  named = l.named;
  is_starting = l.is_starting;
  late = l.late;
}

is_starting-eq : (s : State) → is_starting s ≡ true → s ≡ starting
is_starting-eq waiting h = cc
is_starting-eq starting h = refl
is_starting-eq running h = cc

starting-is : (s : State) → s ≡ starting → is_starting s ≡ true
starting-is s e = rw e refl

here :
    (now timeout : ℕ) (p : Process) (ps : List Process)
    → is_stuck now timeout p ≡ true
    → IsLate now timeout p.id (p ∷ ps)
here now timeout p ps e = record {
  process = p;
  listed = Memᴰ.head refl;
  named = refl;
  is_starting = is_starting-eq p.state (ground arith);
  late = ground arith;
}

stuck-IsLate :
    (now timeout : ℕ) (id : String) (ps : List Process)
    → Memᴰ id (stuck now timeout ps)
    → IsLate now timeout id ps
unfolding stuck
stuck-IsLate now timeout id [] i = elim i [ ]
stuck-IsLate now timeout id (p ∷ ps) i =
    if-cases (λ ids. Memᴰ id ids → IsLate now timeout id (p ∷ ps)) (is_stuck now timeout p)
      (λ e j. elim j [
        | Memᴰ.head same ↦
            subst (λ name. IsLate now timeout name (p ∷ ps)) (sym same) (here now timeout p ps e)
        | Memᴰ.tail k ↦ later (stuck-IsLate now timeout id ps k)
      ])
      (λ _ j. later (stuck-IsLate now timeout id ps j)) i

listed-stuck :
    (now timeout : ℕ) (p : Process) (ps : List Process)
    → is_stuck now timeout p ≡ true
    → Memᴰ p ps
    → Memᴰ p.id (stuck now timeout ps)
unfolding stuck
listed-stuck now timeout p [] h i = elim i [ ]
listed-stuck now timeout p (q ∷ qs) h (Memᴰ.head e) =
    if-cases (Memᴰ p.id) (is_stuck now timeout q) (λ _. Memᴰ.head (ap (λ (x : Process). x.id) e))
      (λ miss. cc (h, miss, ap (is_stuck now timeout) e))
listed-stuck now timeout p (q ∷ qs) h (Memᴰ.tail i) =
    if-cases (Memᴰ p.id) (is_stuck now timeout q)
      (λ _. Memᴰ.tail (listed-stuck now timeout p qs h i)) (λ _. listed-stuck now timeout p qs h i)

IsLate-stuck :
    (now timeout : ℕ) (id : String) (ps : List Process) (l : IsLate now timeout id ps)
    → Memᴰ id (stuck now timeout ps)
IsLate-stuck now timeout id ps l =
    subst (λ name. Memᴰ name (stuck now timeout ps)) l.named
      (listed-stuck now timeout l.process ps
        (ground (arith, starting-is l.process.state l.is_starting, l.late)) l.listed)

-- With a timeout set, the health check lists exactly the ids of the processes that have been
-- starting for longer.
pub check_health_iff :
    (now timeout : ℕ) (id : String) (m : Manager)
    → m.startup_timeout ≡ some timeout
    → Memᴰ id (check_health now m) ↔ IsLate now timeout id m.processes
unfolding check_health
check_health_iff now timeout id m e =
    rw e (stuck-IsLate now timeout id m.processes, IsLate-stuck now timeout id m.processes)

counted-total :
    (id : String) (state : State) (s : Stats) (n : ℕ)
    → length s.waiting_ids + length s.starting_ids + length s.running_ids ≡ n
    → length (counted id state s).waiting_ids
        + length (counted id state s).starting_ids
        + length (counted id state s).running_ids
      ≡ n + 1
counted-total id waiting s n e = omega (arith, e)
counted-total id starting s n e = omega (arith, e)
counted-total id running s n e = omega (arith, e)

grouped-total :
    (total : ℕ) (ps : List Process)
    → length (grouped total ps).waiting_ids
        + length (grouped total ps).starting_ids
        + length (grouped total ps).running_ids
      ≡ length ps
unfolding grouped
grouped-total total [] = refl
grouped-total total (p ∷ ps) =
    counted-total p.id p.state (grouped total ps) (length ps) (grouped-total total ps) ∙ omega arith

counted-keeps_total :
    (id : String) (state : State) (s : Stats) → (counted id state s).total ≡ s.total
counted-keeps_total id waiting s = refl
counted-keeps_total id starting s = refl
counted-keeps_total id running s = refl

total_is : (n : ℕ) (ps : List Process) → (grouped n ps).total ≡ n
unfolding grouped
total_is n [] = refl
total_is n (p ∷ ps) = counted-keeps_total p.id p.state (grouped n ps) ∙ total_is n ps

-- The statistics name as many processes, by their states, as their total says.
pub get_stats-total :
    (m : Manager)
    → length (get_stats m).waiting_ids
        + length (get_stats m).starting_ids
        + length (get_stats m).running_ids
      ≡ (get_stats m).total
unfolding get_stats
get_stats-total m =
    grouped-total (length m.processes) m.processes ∙ sym (total_is (length m.processes) m.processes)
