-- ===== src/Queue/Pool.antt =====
-- Initialization and the pool of command contexts of lib/xnvme_queue.c.
use xnvme.Common.{
  true, ℕ, zero, suc, ◌+◌, ◌-◌, ◌^◌, ◌≤◌, ◌<◌, ◌≡◌, refl, sym, ap, ◌∙◌, inl, inr, ◌⊎◌, ◌≢◌,
  ℕ_discrete, if◌then◌else◌, ltb→lt, ltb→le, false, ◌&&◌, List, [], ◌∷◌, ◌++◌, none, some, ltb,
  ◌==◌, ==_ne, ==_refl, arith, Ret, value, fail, einval, append_assoc, append-nil, is_err,
  Bool-cases,
}
use xnvme.Cmd.{Ctx, update}
use xnvme.Queue.Pow.{guard-none, guard-power}
use xnvme.Queue.{Queue, is_pow2, fresh_ctx, init_pool, queue_init, get_cmd_ctx, set_cb, set_cb_from}

-- The numbers below `i + n` down to `i`.
unfoldable pub range_down : ℕ → ℕ → List ℕ
range_down zero i = []
range_down (suc n) i = (i + n) ∷ range_down n i

range_down-suc : (n i : ℕ) → range_down (suc n) i ≡ range_down n (i + 1) ++ i ∷ []
unfolding range_down
range_down-suc zero i = let e : i + 0 ≡ i = omega arith in rw e
range_down-suc (suc n) i = let e : i + suc n ≡ i + 1 + n = omega arith in rw (e, range_down-suc n i)

lt_of_ne : {p i : ℕ} → p ≢ i → i ≤ p → i + 1 ≤ p
lt_of_ne ne le = omega arith

set_cb_from-else :
    (n i cb arg p : ℕ) (cs : ℕ → Ctx) → (p < i) ⊎ (i + n ≤ p) → set_cb_from n i cb arg cs p ≡ cs p
unfolding set_cb_from
set_cb_from-else zero i cb arg p cs h = refl
set_cb_from-else (suc n) i cb arg p cs h =
    let other : (p == i) ≡ false =
      ==_ne p i
        (elim h [ inl x ↦ λ e. absurd (omega arith) | inr y ↦ λ e. absurd (omega arith) ]) in
    set_cb_from-else n (i + 1) cb arg p _
      (elim h [ inl x ↦ inl (omega arith) | inr y ↦ inr (omega arith) ])
    ∙ rw other

set_cb_from-at :
    (n i cb arg p : ℕ) (cs : ℕ → Ctx)
    → i ≤ p
    → p < i + n
    → set_cb_from n i cb arg cs p ≡ record (cs p) { cb = cb; cb_arg = arg }
unfolding set_cb_from
set_cb_from-at zero i cb arg p cs lo hi = absurd (omega arith)
set_cb_from-at (suc n) i cb arg p cs lo hi = elim (ℕ_discrete p i) [
  | yes e ↦ set_cb_from-else n (i + 1) cb arg p _ (inl (omega arith)) ∙ rw (e, ==_refl i)
  | no ne ↦
      let other : (p == i) ≡ false = ==_ne p i ne in
      set_cb_from-at n (i + 1) cb arg p _ (lt_of_ne ne lo) (omega arith) ∙ rw other
]

module _ {B W : Type 0} where
  -- The loop of xnvme_queue_init() changes the contexts and the pool alone.
  pub init_pool-fields :
      (n i : ℕ) (q : Queue B W)
      → let q' = init_pool n i q in
        (q'.capacity ≡ q.capacity)
        × (q'.outstanding ≡ q.outstanding)
        × (q'.be ≡ q.be)
        × (q'.pool ≡ range_down n i ++ q.pool)
  unfolding init_pool range_down
  init_pool-fields zero i q = (refl, refl, refl, refl)
  init_pool-fields (suc n) i q =
      let (a, b, c, d) =
        init_pool-fields n (i + 1)
          (record q { ctxs = update q.ctxs i (fresh_ctx i); pool = i ∷ q.pool }) in
      (
        a,
        b,
        c,
        d
            ∙ sym (
                ap (λ l. l ++ q.pool) (range_down-suc n i)
                ∙ append_assoc (range_down n (i + 1)) (i ∷ []) q.pool),
      )

  -- The queue after `k` calls of xnvme_queue_get_cmd_ctx().
  unfoldable pub get_times : ℕ → Queue B W → Queue B W
  unfolding get_cmd_ctx
  get_times zero q = q
  get_times (suc k) q = get_times k (get_cmd_ctx q).1

  get_times-pool :
      (k n : ℕ) (q : Queue B W)
      → q.pool ≡ range_down (k + n) 0
      → (get_times k q).pool ≡ range_down n 0
  unfolding get_times get_cmd_ctx range_down
  get_times-pool zero n q e = let z : 0 + n ≡ n = omega arith in rw (← z) e
  get_times-pool (suc k) n q e =
      let s : suc k + n ≡ suc (k + n) = omega arith in
      let e' : q.pool ≡ range_down (suc (k + n)) 0 = e ∙ rw s in
      get_times-pool k n (get_cmd_ctx q).1 (rw e')

  get_cmd_ctx-head :
      (n : ℕ) (q : Queue B W) → q.pool ≡ range_down (suc n) 0 → (get_cmd_ctx q).0 ≡ some n
  unfolding get_cmd_ctx range_down
  get_cmd_ctx-head n q e = let z : 0 + n ≡ n = omega arith in rw (e, z)

  get_cmd_ctx-nil : (q : Queue B W) → q.pool ≡ [] → (get_cmd_ctx q).0 ≡ none
  unfolding get_cmd_ctx
  get_cmd_ctx-nil q e = rw e

  ctx_at :
      (capacity k : ℕ) (q : Queue B W)
      → q.pool ≡ range_down (capacity + 1) 0
      → k ≤ capacity
      → (get_cmd_ctx (get_times k q)).0 ≡ some (capacity - k)
  ctx_at capacity k q e le =
      let size : capacity + 1 ≡ k + suc (capacity - k) = omega arith in
      get_cmd_ctx-head (capacity - k) (get_times k q)
        (get_times-pool k (suc (capacity - k)) q (e ∙ ap (λ n. range_down n 0) size))

  none_left :
      (capacity : ℕ) (q : Queue B W)
      → q.pool ≡ range_down (capacity + 1) 0
      → (get_cmd_ctx (get_times (suc capacity) q)).0 ≡ none
  unfolding range_down
  none_left capacity q e =
      let size : capacity + 1 ≡ suc capacity + 0 = omega arith in
      get_cmd_ctx-nil (get_times (suc capacity) q)
        (get_times-pool (suc capacity) 0 q (e ∙ ap (λ n. range_down n 0) size))

  -- xnvme_queue_set_cb() gives its callback and argument to the contexts of the queue, those
  -- below capacity + 1, changes nothing else in them, and no other context.
  pub set_cb-all :
      (cb arg p : ℕ) (q : Queue B W)
      → ((set_cb cb arg q).1.ctxs p)
        ≡ (if ltb q.capacity p then q.ctxs p else record (q.ctxs p) { cb = cb; cb_arg = arg })
  unfolding set_cb
  set_cb-all cb arg p q = elim (Bool-cases (ltb q.capacity p)) [
    | inl out ↦
        let lt : q.capacity < p = ltb→lt _ _ out in
        rw out (set_cb_from-else (q.capacity + 1) 0 cb arg p q.ctxs (inr (omega arith)))
    | inr inside ↦
        let le : p ≤ q.capacity = ltb→le _ _ inside in
        rw inside (set_cb_from-at (q.capacity + 1) 0 cb arg p q.ctxs (omega arith) (omega arith))
  ]

  -- xnvme_queue_init() by its guard.
  pub queue_init-guarded :
      (capacity : ℕ) (blank : Queue B W) (be_init : Queue B W → Ret × Queue B W)
      → blank.pool ≡ []
      → blank.outstanding ≡ 0
      → ((is_pow2 capacity && ltb capacity 4096) ≡ false
          → queue_init capacity (some blank) be_init ≡ (fail einval, none))
        × ((is_pow2 capacity && ltb capacity 4096) ≡ true
            → (q : Queue B W) × (queue_init capacity (some blank) be_init ≡ (
                if is_err (be_init q).0
                then ((be_init q).0, none)
                else (value 0, some (be_init q).1)))
              × (q.capacity ≡ capacity)
              × (q.outstanding ≡ 0)
              × (q.be ≡ blank.be)
              × ((k : ℕ) → k ≤ capacity → (get_cmd_ctx (get_times k q)).0 ≡ some (capacity - k))
              × ((get_cmd_ctx (get_times (suc capacity) q)).0 ≡ none))
  unfolding queue_init
  queue_init-guarded capacity blank be_init empty idle = (
    λ refused. rw refused,
    λ taken.
        let b : Queue B W = record blank { capacity = capacity } in
        let (cap, out, be, pool) = init_pool-fields (capacity + 1) 0 b in
        let q : Queue B W = init_pool (capacity + 1) 0 b in
        let pool' : q.pool ≡ range_down (capacity + 1) 0 =
          pool ∙ ap (λ l. range_down (capacity + 1) 0 ++ l) empty ∙ append-nil _ in
        (
          q,
          rw taken,
          cap,
          out ∙ idle,
          be,
          λ k le. ctx_at capacity k q pool' le,
          none_left capacity q pool',
        ),
  )

  -- xnvme_queue_init(), given zeroed memory, refuses with EINVAL a capacity that is not one of
  -- the twelve powers of two below 4096; for each of these its result is that of the backend's
  -- init() on a queue of this capacity with nothing outstanding, whose capacity + 1 contexts
  -- are handed out one by one, each once, before there is none left.
  pub queue_init-cases :
      (capacity : ℕ) (blank : Queue B W) (be_init : Queue B W → Ret × Queue B W)
      → blank.pool ≡ []
      → blank.outstanding ≡ 0
      → (((k : ℕ) → k < 12 → capacity ≢ 2 ^ k)
          → queue_init capacity (some blank) be_init ≡ (fail einval, none))
        × ((j : ℕ)
            → j < 12
            → capacity ≡ 2 ^ j
            → (q : Queue B W) × (queue_init capacity (some blank) be_init ≡ (
                if is_err (be_init q).0
                then ((be_init q).0, none)
                else (value 0, some (be_init q).1)))
              × (q.capacity ≡ capacity)
              × (q.outstanding ≡ 0)
              × (q.be ≡ blank.be)
              × ((k : ℕ) → k ≤ capacity → (get_cmd_ctx (get_times k q)).0 ≡ some (capacity - k))
              × ((get_cmd_ctx (get_times (suc capacity) q)).0 ≡ none))
  queue_init-cases capacity blank be_init empty idle =
      let (refuses, accepts) = queue_init-guarded capacity blank be_init empty idle in
      (
        λ no_power. refuses (guard-none capacity no_power),
        λ j small power. accepts (guard-power capacity j small power),
      )
