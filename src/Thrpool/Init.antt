-- ===== src/Thrpool/Init.antt =====
-- The initial state of the thread pool.
use xnvme.Common.{ℕ, ◌≤◌, ◌<◌, ◌≡◌, ◌≢◌, Bool, false, ◌⊎◌}
use xnvme.Queue.{Queue}
use xnvme.Thrpool.{Thrpool}

-- Why no pool of `n` threads starts.
abbrev pub Prevented : ℕ → Bool → (ℕ → ℕ) → Type 0
Prevented n has_threads create =
    (n ≡ 0) ⊎ (1024 ≤ n) ⊎ (has_threads ≡ false) ⊎ ((j : ℕ) × (j < n) × (create j ≢ 0))

module _ {W : Type 0} where
  -- The queue whose backend has been initialised to `t`.
  abbrev pub with_pool : Thrpool → Queue Thrpool W → Queue Thrpool W
  with_pool t q = record q { be = t }
