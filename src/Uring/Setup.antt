-- ===== src/Uring/Setup.antt =====
-- lib/xnvme_be_linux_async_liburing.c: setting up and releasing the queues of io_uring, with the
-- ring that polled queues share, and the descriptor for completions.
pub mod Shared
mod Tests
use xnvme.Common.{
  ℕ, ◌+◌, ◌-◌, ◌/◌, ◌%◌, ◌^◌, Bool, true, false, not, ◌&&◌, ◌||◌, Option, none, some, ◌==◌,
  if◌then◌else◌, get_bits, Ret, value, fail, is_err, errno_nr, errno_of, ebusy,
}
use xnvme.Uring.{UringQueue}

-- The fields of `struct io_uring_params` that are set: `cpu` is `sq_thread_cpu` where
-- IORING_SETUP_SQ_AFF is set, `attach_wq` is `wq_fd` where IORING_SETUP_ATTACH_WQ is, and `big`
-- is IORING_SETUP_SQE128 with IORING_SETUP_CQE32.
pub record Params : Type 0 where
  pub cpu : Option ℕ
  pub sqpoll : Bool
  pub single_issuer : Bool
  pub attach_wq : Option ℕ
  pub iopoll : Bool
  pub big : Bool

abbrev pub no_params : Params
no_params = record {
  cpu = none;
  sqpoll = false;
  single_issuer = false;
  attach_wq = none;
  iopoll = false;
  big = false;
}

-- `struct sqpoll_wq` without its mutex
pub record SqpollWq (R : Type 0) : Type 0 where
  pub ring : R
  pub is_initialized : Bool
  pub refcount : ℕ

-- The functions of liburing and the system that set up rings. `queue_init` is
-- io_uring_queue_init_params() of a number of entries, on a ring.
pub record UringSys (R W : Type 0) : Type 0 where
  pub queue_init : ℕ → Params → R → W → Ret × R × W
  pub queue_exit : R → W → R × W
  pub register_files : ℕ → R → W → Ret × R × W
  pub unregister_files : R → W → R × W
  pub eventfd : W → Ret × W
  pub register_eventfd : ℕ → R → W → Ret × R × W
  pub unregister_eventfd : R → W → R × W
  pub close : ℕ → W → W
  pub ring_fd : R → ℕ

-- What init() reads of the environment: XNVME_QUEUE_BATCHING_OFF, XNVME_QUEUE_SQPOLL_AWQ and
-- XNVME_QUEUE_SQPOLL_CPU, the last two as numbers, none where they are not set; and the two
-- settings of the device.
pub record Settings : Type 0 where
  pub batching_off : Bool
  pub awq : Option ℕ
  pub cpu : Option ℕ
  pub poll_sq : Bool
  pub poll_io : Bool
  pub fd : ℕ

-- `!((env = getenv("XNVME_QUEUE_SQPOLL_AWQ")) && atoi(env) == 0)`
unfoldable pub attaches : Settings → Bool
attaches s = elim s.awq [ none ↦ true | some n ↦ not (n == 0) ]

-- `err == -EINVAL`
unfoldable pub is_einval : Ret → Bool
is_einval (value n) = false
is_einval (fail e) = errno_nr e == 22

-- XNVME_QUEUE_IOPOLL, _SQPOLL and _IOU_BIGSQE
abbrev pub wants_iopoll : ℕ → Bool
wants_iopoll opts = get_bits opts 0 1 == 1

abbrev pub wants_sqpoll : ℕ → Bool
wants_sqpoll opts = get_bits opts 1 1 == 1

abbrev pub wants_big : ℕ → Bool
wants_big opts = get_bits opts 2 1 == 1

module _ {R W : Type 0} (sys : UringSys R W) where
  -- _init_retry(): once more without the flag for a single issuer.
  unfoldable pub init_retry : ℕ → Params → R → W → Ret × R × W
  unfolding is_einval
  init_retry entries p r w =
      let (err, r', w') = sys.queue_init entries p r w in
      let (err', r2, w2) = sys.queue_init entries (record p { single_issuer = false }) r' w' in
      if not (is_err err)
      then (value 0, r', w')
      else if is_einval err && p.single_issuer
      then ((if is_err err' then err' else value 0), r2, w2)
      else (err, r', w')

  -- The part of xnvme_be_linux_liburing_init() for the shared ring.
  unfoldable pub attach : ℕ → Settings → SqpollWq R → W → Ret × SqpollWq R × W
  unfolding init_retry
  attach entries s wq w =
      let p : Params = record no_params { cpu = s.cpu; sqpoll = true; single_issuer = true } in
      let (err, r, w') = init_retry entries p wq.ring w in
      if wq.is_initialized
      then (value 0, record wq { refcount = wq.refcount + 1 }, w)
      else if is_err err
      then (err, record wq { ring = r }, w')
      else (value 0, record { ring = r; is_initialized = true; refcount = wq.refcount + 1 }, w')

  -- A queue lets go of the shared ring: `is_initialized && !(--refcount)`. The count of an
  -- initialized ring is not 0.
  unfoldable pub release : SqpollWq R → W → SqpollWq R × W
  release wq w =
      let (r, w') = sys.queue_exit wq.ring w in
      if not wq.is_initialized
      then (wq, w)
      else if wq.refcount == 1
      then (record { ring = r; is_initialized = false; refcount = wq.refcount - 1 }, w')
      else (record wq { refcount = wq.refcount - 1 }, w)

  -- `ring_params` of a queue; `wq_fd` is none for a queue that does not attach.
  abbrev pub ring_params : ℕ → Option ℕ → UringQueue R → Params
  ring_params opts wq_fd u = record {
    cpu = none;
    sqpoll = u.poll_sq;
    single_issuer = u.poll_sq;
    attach_wq = wq_fd;
    iopoll = u.poll_io;
    big = wants_big opts;
  }

  -- The part of xnvme_be_linux_liburing_init() for the ring of the queue.
  unfoldable pub open_ring : ℕ → ℕ → Settings → Option ℕ → UringQueue R → W → Ret × UringQueue R × W
  unfolding init_retry
  open_ring entries opts s wq_fd u w =
      let (err, r, w1) = init_retry entries (ring_params opts wq_fd u) u.ring w in
      let (err', r', w2) = sys.register_files s.fd r w1 in
      if is_err err
      then (err, record u { ring = r }, w1)
      else if u.poll_sq
      then (err', record u { ring = r' }, w2)
      else (value 0, record u { ring = r }, w1)

  -- The queue before its ring is set up.
  abbrev pub begin : ℕ → Settings → UringQueue R → UringQueue R
  begin opts s u = record u {
    poll_sq = if wants_sqpoll opts || s.poll_sq then true else u.poll_sq;
    poll_io = if wants_iopoll opts || s.poll_io then true else u.poll_io;
    efd = none;
    batching = not s.batching_off;
  }

  -- The label `exit` of xnvme_be_linux_liburing_init()
  unfoldable pub leave_init :
      Ret → UringQueue R → SqpollWq R → W → Ret × UringQueue R × SqpollWq R × W
  unfolding release
  leave_init err u wq w =
      let (wq', w') = release wq w in
      if is_err err && u.poll_sq then (err, u, wq', w') else (err, u, wq, w)

  -- The rings of a queue, the shared one too if it attaches.
  unfoldable pub init_rings :
      Bool → ℕ → ℕ → Settings → UringQueue R → SqpollWq R → W → Ret × UringQueue R × SqpollWq R × W
  unfolding attach open_ring leave_init
  init_rings false entries opts s u wq w =
      let (err, u', w') = open_ring entries opts s none u w in leave_init err u' wq w'
  init_rings true entries opts s u wq w =
      let (err, wq', w1) = attach entries s wq w in
      let (err', u', w2) = open_ring entries opts s (some (sys.ring_fd wq'.ring)) u w1 in
      if is_err err then leave_init err u wq' w1 else leave_init err' u' wq' w2

  -- xnvme_be_linux_liburing_init() of a queue with so many entries, where locking the mutex
  -- succeeds.
  unfoldable pub liburing_init :
      ℕ → ℕ → Settings → UringQueue R → SqpollWq R → W → Ret × UringQueue R × SqpollWq R × W
  unfolding init_rings attaches
  liburing_init entries opts s u wq w =
      let u1 : UringQueue R = begin opts s u in
      init_rings (u1.poll_sq && attaches s) entries opts s u1 wq w

  -- The part of xnvme_be_linux_liburing_term() for the queue.
  unfoldable pub close_ring : UringQueue R → W → UringQueue R × W
  close_ring u w =
      let (r1, w1) =
        (let x : R × W = if u.poll_sq then sys.unregister_files u.ring w else (u.ring, w) in x) in
      let (r2, w2) =
        (let x : R × W = elim u.efd [
          | none ↦ (r1, w1)
          | some efd ↦ let (r, w') = sys.unregister_eventfd r1 w1 in (r, sys.close efd w')
        ] in
          x) in
      let (r3, w3) = sys.queue_exit r2 w2 in (record u { ring = r3; efd = none }, w3)

  -- xnvme_be_linux_liburing_term(), where locking the mutex succeeds.
  unfoldable pub liburing_term : UringQueue R → SqpollWq R → W → UringQueue R × SqpollWq R × W
  unfolding close_ring release
  liburing_term u wq w =
      let (u', w') = close_ring u w in
      let (wq', w2) = release wq w' in if u.poll_sq then (u', wq', w2) else (u', wq, w')

  -- xnvme_be_linux_liburing_get_completion_fd() of a queue with so many commands outstanding;
  -- `errno` is what a failed registration leaves in it.
  unfoldable pub get_completion_fd : ℕ → ℕ → UringQueue R → W → Ret × UringQueue R × W
  get_completion_fd errno outstanding u w =
      let (fd, w1) = sys.eventfd w in
      elim u.efd [
        | some efd ↦ (value efd, u, w)
        | none ↦ if not (outstanding == 0) then (fail ebusy, u, w) else elim fd [
          | fail e ↦ (fail e, u, w1)
          | value efd ↦
              let (err, r, w2) = sys.register_eventfd efd u.ring w1 in
              let u' : UringQueue R = record u { efd = some efd; ring = r } in
              if is_err err
              then (fail (errno_of errno), u', sys.close efd w2)
              else (value efd, record u' { batching = false }, w2)
        ]
      ]
