-- ===== src/Util/ProcessManager/Exits.antt =====
-- What the end of a child leads to, after a stop and after a start.
use mathlib.Core.Path.{subst}
use mercury_farm.Base.{
  ℕ, ◌≡◌, refl, sym, Bool, true, not, ◌&&◌, some, List, [], ◌∷◌, arith, if-cases, Option-cases, inl,
  inr,
}
use mercury_farm.Base.Text.{String}
use mercury_farm.Util.ProcessManager.{
  Process, Manager, find, update, has, stop, start, started, stopping, as_starting, on_exit,
  handle_exit_error, exited, settles, restarts, spawns, Starting, is_running,
}

pub find-update :
    (id : String) (f : Process → Process)
    → ((p : Process) → (f p).id ≡ p.id)
    → (ps : List Process) (p : Process) → find id ps ≡ some p
    → find id (update id f ps) ≡ some (f p)
unfolding find update
find-update id f same [] p e = absurd (ground arith)
find-update id f same (q ∷ qs) p e = ground (arith, same q, find-update id f same qs p)

Restarts : String → Manager × Starting → Type 0
Restarts id r = r.1 ≡ spawns → on_exit id (exited 0) r.0 ≡ restarts

started-Restarts :
    (now : ℕ) (id : String) (force : Bool) (m : Manager) (p : Process)
    → find id m.processes ≡ some p
    → Restarts id (started now id force m (some p))
unfolding Restarts started on_exit handle_exit_error has
started-Restarts now id force m p e =
    if-cases (Restarts id) (not force && is_running p.state) (λ _. λ spawned. absurd (ground arith))
      (λ _. λ _. rw (find-update id (as_starting now) (λ _. refl) m.processes p e) refl)

-- Of a process that is there, and that a start would spawn: after a stop the clean end of a child
-- settles the promise with true, and after the start it is followed by a restart, whatever was
-- asked before.
pub exit_after :
    (now : ℕ) (id : String) (force : Bool) (m : Manager)
    → has id m ≡ true
    → (start now id force m).1 ≡ spawns
    → (on_exit id (exited 0) (stop id m).0 ≡ settles true)
      × (on_exit id (exited 0) (start now id force m).0 ≡ restarts)
unfolding has on_exit stop start Restarts
exit_after now id force m h spawned = elim (Option-cases (find id m.processes)) [
  | inl e ↦ absurd (ground arith)
  | inr (p, e) ↦ (
    rw (find-update id stopping (λ _. refl) m.processes p e) refl,
    subst (λ o. Restarts id (started now id force m o)) (sym e)
        (started-Restarts now id force m p e) spawned,
  )
]
