-- ===== src/Wire/SeqQueue/Order.antt =====
-- Handlers that come to lib/wire/seqqueue.js in the order of their numbers, and the end of its loop.
use mercury_farm.Base.{
  ℕ, zero, suc, ◌+◌, ◌<◌, ◌≡◌, refl, ◌⊎◌, inl, false, none, some, List, [], ◌∷◌, ◌++◌, arith, leb,
  if◌then◌else◌, set, replicate,
}
use mercury_farm.Wire.SeqQueue.{SeqQueue, slot, wrap, taken, skipped, consume, maybe_consume, push}

module _ {H : Type 0} where
  -- Nothing more to do: no handler waits, or the next one has not come and few enough wait.
  abbrev pub IsSettled : SeqQueue H → Type 0
  IsSettled q = (q.waiting ≡ 0) ⊎ ((slot q.list q.lo ≡ none) × (q.waiting < q.max_waiting))

  consume_settles : (n : ℕ) (q : SeqQueue H) → q.waiting ≡ n → IsSettled (consume n q).0
  unfolding consume
  consume_settles zero q e = inl e
  consume_settles (suc n) q e =
      ground (arith, consume_settles n (taken (wrap q)), consume_settles n (skipped (wrap q)))

  -- Every push under a number in range leaves an unlocked queue where the loop has ended by its
  -- own tests.
  pub push_settles :
      (seq : ℕ) (h : H) (q : SeqQueue H)
      → q.locked ≡ false
      → seq < q.size
      → IsSettled (push seq h q).0
  unfolding push maybe_consume
  push_settles seq h q unlocked fits = rw unlocked (
      ground (
        arith,
        consume_settles (q.waiting + 1)
            (record q { list = set q.list seq (some h); waiting = q.waiting + 1; locked = false })
            refl,
      ))

  -- A queue with nothing buffered, waiting for the handler number `k`.
  abbrev pub Ready : SeqQueue H → ℕ → Type 0
  Ready q k =
      (q.locked ≡ false)
      × (q.waiting ≡ 0)
      × (q.list ≡ replicate q.size none)
      × (k < q.size)
      × ((if leb q.size q.lo then 0 else q.lo) ≡ k)

  -- Messages numbered from `k` on, one push each; the numbers wrap at `size`.
  pub feed : SeqQueue H → ℕ → List H → SeqQueue H × List H
  feed q k [] = (q, [])
  feed q k (h ∷ hs) =
      let (q', out) = push k h q in
      let (q'', rest) = feed q' (if leb q.size (k + 1) then 0 else k + 1) hs in (q'', out ++ rest)
