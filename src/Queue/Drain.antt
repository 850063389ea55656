-- ===== src/Queue/Drain.antt =====
-- lib/xnvme_queue.c: xnvme_queue_poke() and xnvme_queue_drain().
use xnvme.Common.{
  ℕ, zero, suc, ◌+◌, true, false, Option, none, some, ◌==◌, if◌then◌else◌, Ret, value, fail, ◌≡◌,
  ◌≢◌, ==_ne,
}
use xnvme.Queue.{Queue}

-- `poke` is the backend's poke(); none is a fault in it, such as a NULL pointer it follows.
module _ {B W : Type 0} (poke : ℕ → Queue B W → Option (Ret × Queue B W)) where
  unfoldable pub queue_poke : ℕ → Queue B W → Option (Ret × Queue B W)
  queue_poke max q = if q.outstanding == 0 then some (value 0, q) else poke max q

  -- The loop of xnvme_queue_drain() with the sum `acc`, on fuel. None is no result: the fuel ran
  -- out, or poke() faulted.
  unfoldable pub drain_from : ℕ → ℕ → Queue B W → Option (Ret × Queue B W)
  drain_from zero acc q = none
  drain_from (suc fuel) acc q = elim (q.outstanding == 0) [
    | true ↦ some (value acc, q)
    | false ↦ elim (queue_poke 0 q) [
      | none ↦ none
      | some (fail e, q') ↦ some (fail e, q')
      | some (value n, q') ↦ drain_from fuel (acc + n) q'
    ]
  ]

  unfoldable pub drain : ℕ → Queue B W → Option (Ret × Queue B W)
  unfolding drain_from
  drain fuel q = drain_from fuel 0 q

  pub drain_from-done :
      (fuel acc : ℕ) (q : Queue B W)
      → q.outstanding ≡ 0
      → drain_from (suc fuel) acc q ≡ some (value acc, q)
  unfolding drain_from
  drain_from-done fuel acc q none_left =
      let test : (q.outstanding == 0) ≡ true = rw none_left in rw (drain_from, test)

  pub drain_from-poke :
      (fuel acc n : ℕ) (q q' : Queue B W)
      → q.outstanding ≢ 0
      → poke 0 q ≡ some (value n, q')
      → drain_from (suc fuel) acc q ≡ drain_from fuel (acc + n) q'
  unfolding drain_from queue_poke
  drain_from-poke fuel acc n q q' more ran =
      let test : (q.outstanding == 0) ≡ false = ==_ne q.outstanding 0 more in
      rw (drain_from, test, queue_poke, test, ran)
