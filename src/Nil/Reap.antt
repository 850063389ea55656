-- ===== src/Nil/Reap.antt =====
-- Poking the nil queue where callbacks call nothing.
use xnvme.Common.{
  ℕ, zero, suc, ◌+◌, ◌-◌, ◌≤◌, ◌<◌, ◌≡◌, ap, ◌∙◌, false, List, [], some, ◌==◌, if◌then◌else◌, min,
  ==_ne, arith, value, sub32,
}
use xnvme.Queue.{Queue}
use xnvme.Queue.Pass.{SyncOps, Act}
use xnvme.Nil.{Slots, depth_max, reap, nil_loop, poke_max, nil_poke}

-- The first `k` slots hold contexts, and the queue fits the array.
pub record IsFilled {W : Type 0} (k : ℕ) (q : Queue Slots W) : Type 0 where
  pub held : (i : ℕ) → i < k → (p : ℕ) × (q.be.ctx i ≡ some p)
  pub bounded : q.outstanding ≤ q.capacity
  pub fits : q.capacity ≤ depth_max

abbrev pub IsValid : {W : Type 0} → Queue Slots W → Type 0
IsValid q = IsFilled q.outstanding q

-- A callback that calls nothing.
abbrev pub noop : {W : Type 0} → ℕ → Queue Slots W → List (Act W)
noop p q = []

-- The number of completions asked for, cut to those outstanding.
abbrev pub poke_count : {W : Type 0} → ℕ → Queue Slots W → ℕ
poke_count max q = if max == 0 then q.outstanding else min max q.outstanding

module _ {W : Type 0} (sync : SyncOps W) where
  reap-IsFilled :
      (k p : ℕ) (q : Queue Slots W) → IsFilled (suc k) q → IsFilled k (reap sync noop k p q)
  unfolding reap
  reap-IsFilled k p q h = record {
    held = λ i lt.
        let (c, eq) = h.held i (omega arith) in
        let other : (i == k) ≡ false = ==_ne i k (omega arith) in (c, rw other eq);
    bounded = h.bounded;
    fits = h.fits;
  }

  reap-slot :
      (k p : ℕ) (q : Queue Slots W) (i : ℕ) → i < k → (reap sync noop k p q).be.ctx i ≡ q.be.ctx i
  unfolding reap
  reap-slot k p q i lt = let other : (i == k) ≡ false = ==_ne i k (omega arith) in rw other

  -- The slot that the next round reads.
  cur-eq :
      (k completed : ℕ) (q : Queue Slots W)
      → q.outstanding ≡ suc k + completed
      → q.outstanding ≤ depth_max
      → sub32 (sub32 q.outstanding completed) 1 ≡ k
  cur-eq k completed q e le = omega arith

  -- A round that finds a context.
  pub nil_loop-some :
      (react : ℕ → Queue Slots W → List (Act W)) (n completed k p : ℕ) (q : Queue Slots W)
      → sub32 (sub32 q.outstanding completed) 1 ≡ k
      → q.be.ctx k ≡ some p
      → nil_loop sync react (suc n) completed q
        ≡ nil_loop sync react n (completed + 1) (reap sync react k p q)
  unfolding nil_loop
  nil_loop-some react n completed k p q e eq =
      let eq' : q.be.ctx (sub32 (sub32 q.outstanding completed) 1) ≡ some p = rw e eq in
      rw (← e) (rw (nil_loop, eq'))

  nil_loop-value :
      (n k completed : ℕ) (q : Queue Slots W)
      → IsFilled k q
      → q.outstanding ≡ k + completed
      → n ≤ k
      → (q' : Queue Slots W) × (nil_loop sync noop n completed q ≡ (value (completed + n), q'))
        × (q'.outstanding ≡ k - n)
        × IsFilled (k - n) q'
        × ((i : ℕ) → i < k - n → q'.be.ctx i ≡ q.be.ctx i)
  unfolding nil_loop
  nil_loop-value zero k completed q h e le = (
    record q { outstanding = sub32 q.outstanding completed },
    ground arith,
    omega arith,
    let same : k - 0 ≡ k = omega arith in
        rw same (record { held = h.held; bounded = omega arith; fits = h.fits }),
    λ i lt j. q.be.ctx i,
  )
  nil_loop-value (suc n) zero completed q h e le = absurd (omega arith)
  nil_loop-value (suc n) (suc k) completed q h e le =
      let (p, eq) = h.held k (omega arith) in
      let cur = cur-eq k completed q e (omega arith) in
      let (q', ran, left, filled, kept) =
        nil_loop-value n k (completed + 1) (reap sync noop k p q) (reap-IsFilled k p q h)
          (omega arith) (omega arith) in
      let sum : completed + 1 + n ≡ completed + suc n = omega arith in
      let same : suc k - suc n ≡ k - n = omega arith in
      (
        q',
        nil_loop-some noop n completed k p q cur eq ∙ ran ∙ ap (λ c. (value c, q')) sum,
        rw same left,
        rw same filled,
        λ i lt. kept i (omega (arith, same)) ∙ reap-slot k p q i (omega arith),
      )

  -- Where callbacks call nothing, nil_poke() on a valid queue returns as many completions as
  -- were asked for, cut to those outstanding, `outstanding` falls by that number, and every
  -- slot below the new `outstanding` holds the context that it held before.
  pub nil_poke-value :
      (max : ℕ) (q : Queue Slots W)
      → IsValid q
      → (q' : Queue Slots W) × (nil_poke sync noop max q ≡ (value (poke_count max q), q'))
        × (q'.outstanding ≡ q.outstanding - poke_count max q)
        × IsValid q'
        × ((i : ℕ) → i < q'.outstanding → q'.be.ctx i ≡ q.be.ctx i)
  unfolding nil_poke
  nil_poke-value max q h =
      let n : ℕ = poke_count max q in
      let same : poke_max max q.outstanding ≡ n = ground arith in
      let (q', ran, left, filled, kept) =
        nil_loop-value n q.outstanding 0 q h (omega arith) (ground arith) in
      let zero_add : 0 + n ≡ n = omega arith in
      (
        q',
        rw same (ran ∙ ap (λ c. (value c, q')) zero_add),
        left,
        record { held = rw left filled.held; bounded = filled.bounded; fits = filled.fits },
        λ i lt. kept i (omega (arith, left)),
      )
