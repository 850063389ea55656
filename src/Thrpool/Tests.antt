-- ===== src/Thrpool/Tests.antt =====
-- The thread pool on concrete commands: two threads and a queue of two.
use xnvme.Common.{
  ℕ, ◌+◌, ◌≤◌, ◌≡◌, refl, true, false, [], ◌∷◌, ◌++◌, none, some, length, arith, value,
}
use xnvme.Cmd.{Payload}
use xnvme.Queue.{Queue, fresh_ctx}
use xnvme.Queue.Pass.{SyncOps}
use xnvme.Thrpool.{
  Thrpool, fill_rp, turn, thrpool_init, qp_alloc, start_pool, thrpool_cmd_io, enqueue, thrpool_poke,
}
use xnvme.Thrpool.System.{
  System, initial, Work, ctxs_of, sleep, submit, signal_one, Reach, begin, works, uses,
}
use xnvme.Thrpool.Inv.{IsValid, initial-IsValid}
use xnvme.Thrpool.Order.{count, commands-kept}
use xnvme.Thrpool.Rest.{Works, done, step, steps, IsSettled, Works-bounded}
use xnvme.Thrpool.Live.{thrpool_cmd_io-accepted, Quiet, noop, outstanding-completed}

abbrev counting : SyncOps ℕ
counting = record {
  cmd_io = λ c pl w. (value 0, c, w + pl.nbytes);
  cmd_iov = λ c pl w. (value 0, c, w + pl.vec_cnt);
}

abbrev pl8 : Payload
pl8 = record { buf = 64; nbytes = 8; vec_cnt = 0; meta = 0; meta_nbytes = 0 }

-- No call of pthread_create() fails.
abbrev creates : ℕ → ℕ
creates i = 0

abbrev pool_of_two : Thrpool
pool_of_two = record {
  qp = record { rp = fill_rp 2 0 []; sq = []; cq = []; capacity = 2 };
  threads_stop = false;
  nthreads = 2;
}

abbrev two : Queue Thrpool ℕ
two = record {
  capacity = 2;
  outstanding = 0;
  pool = [];
  ctxs = fresh_ctx;
  be = pool_of_two;
  world = 100;
}

two-IsValid : IsValid 2 (initial 2 two)
unfolding fill_rp
two-IsValid = initial-IsValid counting two (omega arith) refl (omega arith) refl refl refl

-- One thread sleeps, a command is submitted, and the thread is signalled.
abbrev asleep : System ℕ
asleep = record (initial 2 two) { ready = 1; waiting = 1 }

abbrev queued : System ℕ
queued = record asleep { q = (thrpool_cmd_io 0 0 7 pl8 two).1; signal = true; submitted = 7 ∷ [] }

abbrev woken : System ℕ
woken = record queued { signal = false; ready = 2; waiting = 0 }

woken-Reach : Reach counting 2 two woken
unfolding turn thrpool_cmd_io enqueue fill_rp
woken-Reach =
    uses
      (uses (works begin (sleep refl refl))
        (submit 7 pl8 refl (λ e. absurd (omega (arith, e))) refl))
      (signal_one refl refl)

thrpool_cmd_io-accepted_example : (thrpool_cmd_io 0 0 8 pl8 woken.q).0 ≡ value 0
unfolding thrpool_cmd_io enqueue fill_rp
thrpool_cmd_io-accepted_example =
    thrpool_cmd_io-accepted counting two-IsValid woken-Reach 8 pl8 (λ e. absurd (omega (arith, e)))

-- One thread has gone to sleep.
abbrev one_step : Works counting (initial 2 two) asleep
unfolding turn
one_step = step (sleep refl refl) done

Works-bounded_example :
    (steps one_step ≤ 2)
    × (((u : System ℕ) → ¬ (Work counting asleep u)) → IsSettled (initial 2 two) asleep)
Works-bounded_example = Works-bounded counting one_step two-IsValid refl refl

outstanding-completed_example :
    ((t : System ℕ) × Works counting woken t × Quiet counting t)
    × ((t : System ℕ)
        → Works counting woken t
        → Quiet counting t
        → let (r, q') = thrpool_poke counting noop 0 0 t.q in
          (r ≡ value woken.q.outstanding)
          × (q'.outstanding ≡ 0)
          × (length q'.be.qp.rp ≡ q'.capacity))
unfolding thrpool_cmd_io enqueue fill_rp
outstanding-completed_example =
    outstanding-completed counting two-IsValid woken-Reach refl refl refl

commands-kept_example :
    (woken.started ++ ctxs_of woken.q.be.qp.sq ≡ woken.submitted)
    × ((p : ℕ)
        → count p woken.submitted
          ≡ count p (ctxs_of woken.q.be.qp.sq)
            + count p (ctxs_of woken.taken)
            + count p (ctxs_of woken.ran)
            + count p (ctxs_of woken.q.be.qp.cq)
            + count p (ctxs_of woken.polled)
            + count p woken.called)
commands-kept_example = commands-kept counting two-IsValid refl woken-Reach

-- An environment variable without a number stops the initialisation with a positive result.
thrpool_init_bad : thrpool_init true 0 (some 0) true creates 2 ≡ some (value 22, none)
unfolding thrpool_init qp_alloc start_pool
thrpool_init_bad = refl
