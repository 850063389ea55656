-- ===== src/Thrpool/Rest.antt =====
-- How the threads of the pool come to rest: each of their steps does some of the work.
use xnvme.Common.{
  ℕ, zero, suc, ◌+◌, ◌*◌, ◌≤◌, ◌<◌, ◌≡◌, ap, ◌∙◌, refl, pred-cases, inl, inr, ◌⊎◌, false, List, [],
  length, length-append, uncons, arith,
}
use xnvme.Queue.Pass.{SyncOps}
use xnvme.Thrpool.{Entry, Thrpool, turn, wait, take_, perform}
use xnvme.Thrpool.System.{System, Work, sleep, leave, start, run, finish}
use xnvme.Thrpool.Inv.{IsValid, Work-IsValid, length-split, turn-take}

-- What the threads have left to do.
abbrev pub work_left : {W : Type 0} → System W → ℕ
work_left s = 4 * length s.q.be.qp.sq + 3 * length s.taken + 2 * length s.ran + s.ready

module _ {W : Type 0} (sync : SyncOps W) where
  -- Every step lowers a measure of the work that is left: the entries of the submission queue,
  -- those taken and those run, and the threads before the lock.
  Work-decreases : {s t : System W} → Work sync s t → work_left t < work_left s
  unfolding perform
  Work-decreases (sleep r w) = omega arith
  Work-decreases (leave r w) = omega arith
  Work-decreases {s} (start r w) =
      let (sq, go) = turn-take s.q.be w in grind (arith, ap length sq, length-append)
  Work-decreases (run xs e ys eq) = grind (arith, length-split _ xs e ys eq, length-append)
  Work-decreases (finish xs e ys eq) = grind (arith, length-split _ xs e ys eq, length-append)

turn-cases :
    (t : Thrpool)
    → t.threads_stop ≡ false
    → (turn t ≡ wait) ⊎ ((e : Entry) × (sq : List Entry) × (turn t ≡ take_ e sq))
unfolding turn
turn-cases t going = elim (uncons t.qp.sq) [
  | inl empty ↦ inl (rw (going, empty))
  | inr (e, sq, eq) ↦ inr (e, sq, rw (going, eq))
]

-- The steps of the threads alone, one after the other.
pub data Works {W : Type 0} (sync : SyncOps W) : System W → System W → Type 0 where
  done : {s : System W} → Works sync s s
  step : {s t u : System W} → Work sync s t → Works sync t u → Works sync s u

-- The number of these steps.
unfoldable pub steps : {W : Type 0} {sync : SyncOps W} {s t : System W} → Works sync s t → ℕ
steps done = 0
steps (step w ws) = suc (steps ws)

-- The threads are through with all that was submitted.
pub record IsSettled {W : Type 0} (s t : System W) : Type 0 where
  pub no_ready : t.ready ≡ 0
  pub no_sq : t.q.be.qp.sq ≡ []
  pub no_taken : t.taken ≡ []
  pub no_ran : t.ran ≡ []
  pub same_outstanding : t.q.outstanding ≡ s.q.outstanding
  pub same_completed : t.completed ≡ s.completed

module _ {W : Type 0} (sync : SyncOps W) where
  pub Work-same :
      {s t : System W}
      → Work sync s t
      → (t.q.be.threads_stop ≡ s.q.be.threads_stop)
        × (t.signal ≡ s.signal)
        × (t.q.outstanding ≡ s.q.outstanding)
        × (t.completed ≡ s.completed)
  unfolding perform
  Work-same (sleep r w) = (refl, refl, refl, refl)
  Work-same (leave r w) = (refl, refl, refl, refl)
  Work-same (start r w) = (refl, refl, refl, refl)
  Work-same (run xs e ys eq) = (refl, refl, refl, refl)
  Work-same (finish xs e ys eq) = (refl, refl, refl, refl)

module _ {W : Type 0} (sync : SyncOps W) {n : ℕ} where
  -- A thread can make a step, or all is done.
  pub work-or_IsSettled :
      (s : System W)
      → IsValid n s
      → s.q.be.threads_stop ≡ false
      → s.signal ≡ false
      → ((t : System W) × Work sync s t) ⊎ IsSettled s s
  work-or_IsSettled s v going quiet = elim (uncons s.taken) [
    | inr (e, es, eq) ↦ inl (_, run [] e es eq)
    | inl no_taken ↦ elim (uncons s.ran) [
      | inr (e, es, eq) ↦ inl (_, finish [] e es eq)
      | inl no_ran ↦ elim (pred-cases s.ready) [
        | inr (r, eq) ↦ elim (turn-cases s.q.be going) [
          | inl w ↦ inl (_, sleep eq w)
          | inr (e, sq, w) ↦ inl (_, start eq w)
        ]
        | inl none_ready ↦ elim (uncons s.q.be.qp.sq) [
          | inl no_sq ↦ inr (record {
            no_ready = none_ready;
            no_sq = no_sq;
            no_taken = no_taken;
            no_ran = no_ran;
            same_outstanding = refl;
            same_completed = refl;
          })
          | inr (e, sq, eq) ↦ absurd (
              omega (
                arith,
                v.awake going quiet,
                v.working going,
                v.threads,
                ap length eq,
                ap length no_taken,
                ap length no_ran,
                none_ready,
              ))
        ]
      ]
    ]
  ]

  pub Works-IsSettled :
      (fuel : ℕ) (s : System W)
      → work_left s ≤ fuel
      → IsValid n s
      → s.q.be.threads_stop ≡ false
      → s.signal ≡ false
      → (t : System W) × Works sync s t × IsSettled s t × IsValid n t
  Works-IsSettled zero s enough v going quiet = elim (work-or_IsSettled s v going quiet) [
    | inr all ↦ (s, done, all, v)
    | inl (t, w) ↦ absurd (omega (arith, Work-decreases sync w))
  ]
  Works-IsSettled (suc fuel) s enough v going quiet = elim (work-or_IsSettled s v going quiet) [
    | inr all ↦ (s, done, all, v)
    | inl (t, w) ↦
        let (a, b, c, d) = Work-same sync w in
        let (u, ws, all, vu) =
          Works-IsSettled fuel t (omega (arith, Work-decreases sync w)) (Work-IsValid sync w v)
            (a ∙ going) (b ∙ quiet) in
        (
          u,
          step w ws,
          record {
            no_ready = all.no_ready;
            no_sq = all.no_sq;
            no_taken = all.no_taken;
            no_ran = all.no_ran;
            same_outstanding = all.same_outstanding ∙ c;
            same_completed = all.same_completed ∙ d;
          },
          vu,
        )
  ]

module _ {W : Type 0} (sync : SyncOps W) where
  steps-le : {s t : System W} (ws : Works sync s t) → steps ws + work_left t ≤ work_left s
  unfolding steps
  steps-le done = omega arith
  steps-le (step w ws) = omega (arith, Work-decreases sync w, steps-le ws)

module _ {W : Type 0} (sync : SyncOps W) {n : ℕ} where
  -- A run of threads, whatever its order, keeps what the user sees.
  pub Works-same :
      {s t : System W}
      → Works sync s t
      → IsValid n s
      → IsValid n t
        × (t.q.be.threads_stop ≡ s.q.be.threads_stop)
        × (t.signal ≡ s.signal)
        × (t.q.outstanding ≡ s.q.outstanding)
        × (t.completed ≡ s.completed)
  Works-same done v = (v, refl, refl, refl, refl)
  Works-same (step w ws) v =
      let (a, b, c, d) = Work-same sync w in
      let (vt, a', b', c', d') = Works-same ws (Work-IsValid sync w v) in
      (vt, a' ∙ a, b' ∙ b, c' ∙ c, d' ∙ d)

  -- From a valid state of a pool that is not to stop, with no signal about to be given, the
  -- threads make at most four steps for each entry of the submission queue, three for each that
  -- is taken, two for each that has been run and one for each thread before the lock, in
  -- whatever order they run, as long as nobody else makes a step and none wakes up without a
  -- signal; and where none of them can make a step, the submission queue is empty, no entry is
  -- taken or run and not handed over, and no thread is before the lock.
  pub Works-bounded :
      {s t : System W} (ws : Works sync s t)
      → IsValid n s
      → s.q.be.threads_stop ≡ false
      → s.signal ≡ false
      → (steps ws ≤ 4 * length s.q.be.qp.sq + 3 * length s.taken + 2 * length s.ran + s.ready)
        × (((u : System W) → ¬ (Work sync t u)) → IsSettled s t)
  Works-bounded {s} {t} ws v going quiet =
      let (vt, a, b, c, d) = Works-same ws v in
      (
        omega (arith, steps-le sync ws),
        λ stuck. elim (work-or_IsSettled sync t vt (a ∙ going) (b ∙ quiet)) [
          | inl (u, w) ↦ absurd (stuck u w)
          | inr all ↦ record {
            no_ready = all.no_ready;
            no_sq = all.no_sq;
            no_taken = all.no_taken;
            no_ran = all.no_ran;
            same_outstanding = c;
            same_completed = d;
          }
        ],
      )
