-- ===== src/Wire/SeqQueue.antt =====
-- lib/wire/seqqueue.js: handlers that arrive under sequence numbers are run in order. A handler is
-- a value of the type `H`; running it is to list it in the result. Handlers do not call the queue.
pub mod Order
pub mod Skips
mod Tests
use mercury_farm.Base.{
  ℕ, zero, suc, ◌+◌, ◌-◌, Bool, true, false, Option, none, some, List, [], ◌∷◌, leb, if◌then◌else◌,
  set, replicate,
}

pub record SeqQueue {ℓ} (H : Type ℓ) : Type ℓ where
  pub lo : ℕ
  pub size : ℕ
  pub max_waiting : ℕ
  pub waiting : ℕ
  pub list : List (Option H)
  pub locked : Bool

module _ {ℓ} {H : Type ℓ} where
  pub new : ℕ → ℕ → SeqQueue H
  new size max_waiting = record {
    lo = 0;
    size = size;
    max_waiting = max_waiting;
    waiting = 0;
    list = replicate size none;
    locked = true;
  }

  -- `this.list[i]`, where an index out of range reads undefined
  abbrev pub slot : List (Option H) → ℕ → Option H
  slot [] i = none
  slot (x ∷ xs) zero = x
  slot (x ∷ xs) (suc i) = slot xs i

  abbrev pub wrap : SeqQueue H → SeqQueue H
  wrap q = record q { lo = if leb q.size q.lo then 0 else q.lo }

  -- the state after the first branch of the loop, which runs the handler at `lo`
  abbrev pub taken : SeqQueue H → SeqQueue H
  taken q = record q { list = set q.list q.lo none; lo = q.lo + 1; waiting = q.waiting - 1 }

  -- the state after the second branch, which gives up on the slot at `lo`
  abbrev pub skipped : SeqQueue H → SeqQueue H
  skipped q = record q { lo = q.lo + 1; waiting = q.waiting - 1 }

  -- The loop, on as many rounds as `waiting` counts; each round but the last takes one off it.
  pub consume : ℕ → SeqQueue H → SeqQueue H × List H
  consume zero q = (q, [])
  consume (suc n) q =
      let w = wrap q in
      elim (slot w.list w.lo) [
        | some h ↦ (let (q', hs) = consume n (taken w) in (q', h ∷ hs))
        | none ↦ elim (leb w.max_waiting w.waiting) [
          | true ↦ consume n (skipped w)
          | false ↦ (w, [])
        ]
      ]

  pub maybe_consume : SeqQueue H → SeqQueue H × List H
  maybe_consume q = if q.locked then (q, []) else consume q.waiting q

  pub start : ℕ → SeqQueue H → SeqQueue H × List H
  start seq q = maybe_consume (record q { locked = false; lo = seq + 1 })

  pub stop : SeqQueue H → SeqQueue H × List H
  stop q = maybe_consume (record q { locked = true })

  pub push : ℕ → H → SeqQueue H → SeqQueue H × List H
  push seq h q =
      if leb q.size seq
      then (q, [])
      else maybe_consume (record q { list = set q.list seq (some h); waiting = q.waiting + 1 })
