-- ===== src/Thrpool.antt =====
-- lib/xnvme_be_cbi_async_thrpool.c: asynchronous commands run by a pool of threads. Submission puts
-- an entry on the submission queue, threads run it through the synchronous interface and put it on
-- the completion queue, and poke() calls back from there.
pub mod System
pub mod Inv
pub mod Init
pub mod Order
pub mod Rest
pub mod Live
mod Tests
use xnvme.Common.{
  ℕ, zero, suc, ◌+◌, ◌%◌, ◌^◌, Bool, true, false, ◌||◌, List, [], ◌∷◌, ◌++◌, Option, none, some,
  ◌==◌, leb, ltb, if◌then◌else◌, take, drop, length, add32, sub32, Ret, value, fail, is_err, enomem,
  ebusy, errno_of, sc_of,
}
use xnvme.Cmd.{Ctx, Payload, update}
use xnvme.Queue.{Queue}
use xnvme.Queue.Pass.{SyncOps, AsyncOps, Act, run_acts}

-- `struct _thrpool_entry`: `slot` is its index in `elm`; its device is that of the queue.
pub record Entry : Type 0 where
  pub slot : ℕ
  pub ctx : ℕ
  pub payload : Payload
  pub is_vectored : Bool

-- `struct _thrpool_qp`, without its mutexes and its condition variable.
pub record Qp : Type 0 where
  pub rp : List Entry
  pub sq : List Entry
  pub cq : List Entry
  pub capacity : ℕ

-- `struct xnvme_queue_thrpool`, the part behind the base. The pointer `qp` is not NULL here.
pub record Thrpool : Type 0 where
  pub qp : Qp
  pub threads_stop : Bool
  pub nthreads : ℕ

abbrev blank_entry : ℕ → Entry
blank_entry i = record {
  slot = i;
  ctx = 0;
  payload = record { buf = 0; nbytes = 0; vec_cnt = 0; meta = 0; meta_nbytes = 0 };
  is_vectored = false;
}

-- The loop of _thrpool_qp_alloc() from entry `i` on, with `n` rounds left.
unfoldable pub fill_rp : ℕ → ℕ → List Entry → List Entry
fill_rp zero i rp = rp
fill_rp (suc n) i rp = fill_rp n (i + 1) (blank_entry i ∷ rp)

-- _thrpool_qp_alloc(): `has_memory` is whether malloc() succeeds, and `inits` is the first error of
-- the three calls that initialise the condition variable and the mutexes, 0 where there is none.
-- The second component is what `*qp` points at; none is NULL.
unfoldable pub qp_alloc : Bool → ℕ → ℕ → Ret × Option Qp
unfolding fill_rp
qp_alloc has_memory inits capacity =
    let blank : Qp = record { rp = []; sq = []; cq = []; capacity = 0 } in
    if has_memory
    then (if inits == 0
        then (value 0, some (record blank { rp = fill_rp capacity 0 []; capacity = capacity }))
        else (fail (errno_of inits), some blank))
    else (fail enomem, none)

-- The loop of cbi_async_thrpool_init() that starts the threads from `i` on, with `n` left, and
-- `create i` what pthread_create() returns. The number of threads started is counted.
unfoldable pub start_threads : (ℕ → ℕ) → ℕ → ℕ → Ret × ℕ
start_threads create zero i = (value 0, i)
start_threads create (suc n) i = elim (create i) [
  | zero ↦ start_threads create n (i + 1)
  | suc e ↦ (fail (errno_of (suc e)), i)
]

-- The number of threads: that of the environment variable, or else the default.
abbrev pub nthreads_of : Option ℕ → ℕ
nthreads_of none = 4
nthreads_of (some n) = n

-- cbi_async_thrpool_init() behind _thrpool_qp_alloc(): `has_threads` is whether calloc() succeeds.
-- On failure cbi_async_thrpool_term() frees the queue, and nothing is left.
unfoldable pub start_pool : Qp → ℕ → Bool → (ℕ → ℕ) → Ret × Option Thrpool
unfolding start_threads
start_pool qp nthreads has_threads create =
    let (started, count) = start_threads create nthreads 0 in
    if (nthreads == 0) || leb 1024 nthreads
    then (value 22, none)
    else if has_threads
    then (if is_err started
        then (started, none)
        else (value 0, some (record { qp = qp; threads_stop = false; nthreads = count })))
    else (fail enomem, none)

-- cbi_async_thrpool_init() with `env` the number in the environment variable, none where it is not
-- set; a number below 0 is as wrong as 0. None is the fault of cbi_async_thrpool_term(), which on
-- failure follows a `qp` that is NULL.
unfoldable pub thrpool_init :
    Bool → ℕ → Option ℕ → Bool → (ℕ → ℕ) → ℕ → Option (Ret × Option Thrpool)
unfolding qp_alloc start_pool
thrpool_init has_memory inits env has_threads create capacity =
    let (err, opt) = qp_alloc has_memory inits capacity in
    elim opt [
      | none ↦ none
      | some qp ↦
          some
            (if is_err err then (err, none) else start_pool qp (nthreads_of env) has_threads create)
    ]

-- The payload as an entry keeps it, in fields of type uint32_t.
abbrev narrow : Payload → Payload
narrow pl = record pl {
  nbytes = pl.nbytes % 2 ^ 32;
  vec_cnt = pl.vec_cnt % 2 ^ 32;
  meta_nbytes = pl.meta_nbytes % 2 ^ 32;
}

-- `max` as cbi_async_thrpool_poke() corrects it
abbrev pub poke_max : ℕ → ℕ → ℕ
poke_max max outstanding =
    let max' = if max == 0 then outstanding else max in
    if ltb outstanding max' then outstanding else max'

-- What a thread does when it holds the lock of the submission queue: wait for the condition
-- variable, leave, or take the entry at the head, with the rest of the queue.
pub data Turn : Type 0 where
  wait stop : Turn
  take_ : Entry → List Entry → Turn

-- _thrpool_thread_loop(): from its lock of `sq_mutex` to the unlock, or to the wait.
unfoldable pub turn : Thrpool → Turn
turn t = if t.threads_stop then stop else elim t.qp.sq [ [] ↦ wait | e ∷ sq ↦ take_ e sq ]

module _ {W : Type 0} where
  -- The queue with its completion queue, request pool or submission queue replaced.
  abbrev pub set_qp : Qp → Queue Thrpool W → Queue Thrpool W
  set_qp qp q = record q { be = record q.be { qp = qp } }

  -- The submission of a payload that is kept as `pl`: `lock` and `signal` are what
  -- pthread_mutex_lock() and pthread_cond_signal() return.
  unfoldable pub enqueue : ℕ → ℕ → ℕ → Payload → Bool → Queue Thrpool W → Ret × Queue Thrpool W
  enqueue lock signal p pl is_vectored q = elim q.be.qp.rp [
    | [] ↦ (fail ebusy, q)
    | e ∷ rp ↦
        let e' : Entry = record e { ctx = p; payload = pl; is_vectored = is_vectored } in
        let q' : Queue Thrpool W =
          record (set_qp (record q.be.qp { rp = rp; sq = q.be.qp.sq ++ e' ∷ [] }) q) {
            outstanding = add32 q.outstanding 1;
          } in
        if lock == 0
        then (if signal == 0 then (value 0, q') else (fail (errno_of signal), q'))
        else (fail (errno_of lock), set_qp (record q.be.qp { rp = rp ++ e' ∷ [] }) q)
  ]

  -- cbi_async_thrpool_cmd_io() and cbi_async_thrpool_cmd_iov()
  unfoldable pub thrpool_cmd_io : ℕ → ℕ → ℕ → Payload → Queue Thrpool W → Ret × Queue Thrpool W
  unfolding enqueue
  thrpool_cmd_io lock signal p pl = enqueue lock signal p (narrow (record pl { vec_cnt = 0 })) false

  unfoldable pub thrpool_cmd_iov : ℕ → ℕ → ℕ → Payload → Queue Thrpool W → Ret × Queue Thrpool W
  unfolding enqueue
  thrpool_cmd_iov lock signal p pl = enqueue lock signal p (narrow pl) true

  -- Where the calls of pthread succeed.
  abbrev pub thrpool_async : AsyncOps Thrpool W
  thrpool_async = record { cmd_io = thrpool_cmd_io 0 0; cmd_iov = thrpool_cmd_iov 0 0 }

  -- The part of cbi_async_thrpool_poke() under the lock: at most `n` entries leave the head of the
  -- completion queue.
  abbrev pub collect : ℕ → Queue Thrpool W → List Entry × Queue Thrpool W
  collect n q = (take n q.be.qp.cq, set_qp (record q.be.qp { cq = drop n q.be.qp.cq }) q)

  -- The end of a callback: the entry is put into the request pool.
  abbrev pub recycle : Entry → Queue Thrpool W → Queue Thrpool W
  recycle e q = set_qp (record q.be.qp { rp = q.be.qp.rp ++ e ∷ [] }) q

  -- The end of cbi_async_thrpool_poke()
  abbrev pub settle : ℕ → Queue Thrpool W → Queue Thrpool W
  settle completed q = record q { outstanding = sub32 q.outstanding completed }

module _ {W : Type 0} (sync : SyncOps W) where
  -- _thrpool_thread_loop(): the command of `e` is run, and the error marked in its context, where
  -- its status code is zero.
  unfoldable pub perform : Entry → Queue Thrpool W → Queue Thrpool W
  perform e q =
      let (err, c, w) =
        (if e.is_vectored then sync.cmd_iov else sync.cmd_io) (q.ctxs e.ctx) e.payload q.world in
      let sc : ℕ = if is_err err then (if c.sc == 0 then sc_of err else c.sc) else c.sc in
      record q { ctxs = update q.ctxs e.ctx (record c { sc = sc }); world = w }

  -- The loop of cbi_async_thrpool_poke() that calls back, where `react p q` is what the callback of
  -- the context at `p` does in the state `q`.
  unfoldable pub call_back_all :
      (ℕ → Queue Thrpool W → List (Act W)) → List Entry → Queue Thrpool W → Queue Thrpool W
  unfolding run_acts
  call_back_all react [] q = q
  call_back_all react (e ∷ es) q =
      call_back_all react es (recycle e (run_acts thrpool_async sync (react e.ctx q) q))

  -- cbi_async_thrpool_poke(), with `lock` what pthread_mutex_lock() returns.
  unfoldable pub thrpool_poke :
      (ℕ → Queue Thrpool W → List (Act W)) → ℕ → ℕ → Queue Thrpool W → Ret × Queue Thrpool W
  unfolding call_back_all
  thrpool_poke react lock max q =
      let (entries, q') = collect (poke_max max q.outstanding) q in
      let completed : ℕ = length entries in
      if lock == 0
      then (value completed, settle completed (call_back_all react entries q'))
      else (fail (errno_of lock), q)
