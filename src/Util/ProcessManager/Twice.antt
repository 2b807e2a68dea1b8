-- ===== src/Util/ProcessManager/Twice.antt =====
-- Two removals of one process that overlap.
use mercury_farm.Base.{ℕ, ◌+◌, ◌≡◌, refl, ◌∙◌, none, some, List, [], ◌∷◌, arith}
use mercury_farm.Base.Text.{String}
use mercury_farm.Util.ProcessManager.{
  Process, Manager, find, update, delete, stop, stopping, begun, begin_remove, finished,
  finish_remove, returned,
}
use mercury_farm.Util.ProcessManager.Ports.{
  count, copies, IsIdle, held-delete, delete-update, pooled-returned,
}
use mercury_farm.Util.ProcessManager.Exits.{find-update}

delete-absent : (id : String) (ps : List Process) → find id ps ≡ none → delete id ps ≡ ps
unfolding find delete
delete-absent id [] e = refl
delete-absent id (p ∷ ps) e = ground (arith, delete-absent id ps)

-- Both removals are under way: each holds the resources.
begun_twice :
    (id : String) (m : Manager) (p : Process)
    → IsIdle m
    → find id m.processes ≡ some p
    → begin_remove id (begin_remove id m) ≡ record m {
      processes = update id stopping (update id stopping m.processes);
      removing =
          record { id = id; resources = p.resources }
          ∷ record { id = id; resources = p.resources }
          ∷ [];
    }
unfolding begin_remove begun stop
begun_twice id m p i e =
    rw (e, find-update id stopping (λ _. refl) m.processes p e, i.none_removed) refl

-- If a process that the map holds once is removed again while a first removal of it still awaits
-- its stop, on a manager with a pool and no other removal, then each of its ports comes back to
-- the pool twice.
pub released_twice :
    (port : ℕ) (id : String) (m : Manager) (p : Process)
    → IsIdle m
    → find id m.processes ≡ some p
    → find id (delete id m.processes) ≡ none
    → copies port (finish_remove (finish_remove (begin_remove id (begin_remove id m))))
      ≡ copies port m + count port p.resources
unfolding finish_remove finished
released_twice port id m p i e once =
    let (first, a) = pooled-returned port p.resources m.resource_pool i.has_pool in
    let (_, b) = pooled-returned port p.resources (returned p.resources m.resource_pool) first in
    let gone : delete id (update id stopping (update id stopping m.processes))
        ≡ delete id m.processes =
      delete-update id stopping (λ _. refl) (update id stopping m.processes)
      ∙ delete-update id stopping (λ _. refl) m.processes in
    rw (begun_twice id m p i e, gone, delete-absent id (delete id m.processes) once, b, a)
      (omega (arith, held-delete port id m.processes p e))
