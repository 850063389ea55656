-- ===== src/Queue/Tests.antt =====
-- Initialization and callbacks on a concrete queue of two.
use xnvme.Common.{
  ◌<◌, ◌≢◌, ◌^◌, ℕ, ◌-◌, ◌≤◌, ◌≡◌, refl, [], none, some, ltb, Ret, value, fail, einval, is_err,
  if◌then◌else◌, enomem,
}
use xnvme.Queue.{Queue, fresh_ctx, queue_init, get_cmd_ctx}
use xnvme.Queue.Pool.{get_times, queue_init-cases}

abbrev blank : Queue ℕ ℕ
blank = record { capacity = 0; outstanding = 0; pool = []; ctxs = fresh_ctx; be = 0; world = 0 }

-- A backend that refuses queues of more than two.
abbrev small_only : Queue ℕ ℕ → Ret × Queue ℕ ℕ
small_only q = if ltb 2 q.capacity then (fail enomem, q) else (value 0, record q { be = 1 })

queue_init-cases_example :
    (((k : ℕ) → k < 12 → 2 ≢ 2 ^ k) → queue_init 2 (some blank) small_only ≡ (fail einval, none))
    × ((j : ℕ)
        → j < 12
        → 2 ≡ 2 ^ j
        → (q : Queue ℕ ℕ) × (queue_init 2 (some blank) small_only ≡ (
            if is_err (small_only q).0
            then ((small_only q).0, none)
            else (value 0, some (small_only q).1)))
          × (q.capacity ≡ 2)
          × (q.outstanding ≡ 0)
          × (q.be ≡ 0)
          × ((k : ℕ) → k ≤ 2 → (get_cmd_ctx (get_times k q)).0 ≡ some (2 - k))
          × ((get_cmd_ctx (get_times 3 q)).0 ≡ none))
queue_init-cases_example = queue_init-cases 2 blank small_only refl refl
