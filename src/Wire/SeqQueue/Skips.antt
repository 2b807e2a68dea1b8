-- ===== src/Wire/SeqQueue/Skips.antt =====
-- What giving up on a missing handler does to the queue of lib/wire/seqqueue.js.
use mercury_farm.Base.{
  ℕ, zero, suc, ◌+◌, ◌-◌, ◌≤◌, ◌<◌, ◌≡◌, false, Option, none, some, List, [], ◌∷◌, arith, set,
}
use mercury_farm.Wire.SeqQueue.{SeqQueue, slot, wrap, taken, skipped, consume, maybe_consume}

module _ {H : Type 0} where
  -- the handlers that the buffer holds
  abbrev pub filled : List (Option H) → ℕ
  filled [] = 0
  filled (none ∷ xs) = filled xs
  filled (some h ∷ xs) = suc (filled xs)

  abbrev held : Option H → ℕ
  held none = 0
  held (some h) = 1

  filled-set :
      (xs : List (Option H)) (i : ℕ) → filled xs ≡ held (slot xs i) + filled (set xs i none)
  filled-set [] i = omega arith
  filled-set (none ∷ xs) zero = omega arith
  filled-set (some x ∷ xs) zero = omega arith
  filled-set (none ∷ xs) (suc i) = omega (arith, filled-set xs i)
  filled-set (some x ∷ xs) (suc i) = omega (arith, filled-set xs i)

  -- The loop never makes up for handlers that are buffered and no longer counted.
  pub consume_keeps_lag :
      (d n : ℕ) (q : SeqQueue H)
      → q.waiting ≡ n
      → q.waiting + d ≤ filled q.list
      → (consume n q).0.waiting + d ≤ filled (consume n q).0.list
  unfolding consume
  consume_keeps_lag d zero q e h = h
  consume_keeps_lag d (suc n) q e h = ground (
    arith,
    filled-set q.list (wrap q).lo,
    consume_keeps_lag d n (taken (wrap q)),
    consume_keeps_lag d n (skipped (wrap q)),
  )

  skip_round :
      (n : ℕ) (q : SeqQueue H)
      → q.waiting ≡ suc n
      → filled q.list ≡ q.waiting
      → slot q.list (wrap q).lo ≡ none
      → q.max_waiting ≤ q.waiting
      → (consume (suc n) q).0.waiting < filled (consume (suc n) q).0.list
  unfolding consume
  skip_round n q e counted missing late = ground (arith, consume_keeps_lag 1 n (skipped (wrap q)))

  -- If the next handler is missing and as many wait as are tolerated, then the loop, from an
  -- unlocked queue that counts exactly what it buffers, stops with a buffered handler that it does
  -- not count.
  pub skip_strands :
      (q : SeqQueue H)
      → q.locked ≡ false
      → filled q.list ≡ q.waiting
      → slot q.list (wrap q).lo ≡ none
      → q.max_waiting ≤ q.waiting
      → 0 < q.waiting
      → (maybe_consume q).0.waiting < filled (maybe_consume q).0.list
  unfolding maybe_consume
  skip_strands q unlocked counted missing late busy =
      let e : q.waiting ≡ suc (q.waiting - 1) = omega arith in
      ground (arith, skip_round (q.waiting - 1) q e counted missing late)
