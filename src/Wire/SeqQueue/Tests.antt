-- ===== src/Wire/SeqQueue/Tests.antt =====
-- Runs of the queue, and the theorems at concrete queues.
use mercury_farm.Base.{ℕ, ◌≡◌, ◌<◌, refl, none, some, [], ◌∷◌, arith, false}
use mercury_farm.Wire.SeqQueue.{SeqQueue, new, push, start, maybe_consume, consume}
use mercury_farm.Wire.SeqQueue.Skips.{filled, skip_strands}

abbrev open_queue : SeqQueue ℕ
open_queue = record {
  lo = 1;
  size = 4;
  max_waiting = 2;
  waiting = 0;
  list = none ∷ none ∷ none ∷ none ∷ [];
  locked = false;
}

started : (start {H = ℕ} 0 (new 4 2)).0 ≡ open_queue
unfolding start new maybe_consume consume
started = refl

abbrev late_queue : SeqQueue ℕ
late_queue = record open_queue { waiting = 2; list = none ∷ none ∷ some 20 ∷ some 30 ∷ [] }

swapped : (push 1 10 (push 2 20 open_queue).0).1 ≡ 10 ∷ 20 ∷ []
unfolding push maybe_consume consume
swapped = refl

skip_strands_example :
    (maybe_consume late_queue).0.waiting < filled (maybe_consume late_queue).0.list
skip_strands_example = skip_strands late_queue refl refl refl (omega arith) (omega arith)
