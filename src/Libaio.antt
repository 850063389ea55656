-- ===== src/Libaio.antt =====
-- lib/xnvme_be_linux_async_libaio.c: asynchronous commands run by libaio.
pub mod Inv
pub mod Reap
mod Tests
use xnvme.Common.{
  ℕ, zero, suc, ◌+◌, ◌/◌, ◌%◌, ◌^◌, Bool, true, false, not, ◌&&◌, ◌||◌, ◌⊎◌, inl, inr, Option, none,
  some, ◌==◌, ltb, if◌then◌else◌, add32, sub32, shl64, get_bits, Ret, value, fail, Errno, errno_nr,
  errno_of, enosys, enotsup, ebusy, eio, List, [], ◌∷◌, length, is_err,
}
use xnvme.Cmd.{Cmd, Ctx, Payload, slba, update}
use xnvme.Queue.{Queue}
use xnvme.Queue.Pass.{SyncOps, AsyncOps, Act, run_acts}
use xnvme.Ramdisk.{IoOpc, io_opc, write, read, fs_write, fs_read, flush, fs_flush, has_meta}
use xnvme.Uring.{fua, is_nvm_write}

-- The operations that io_prep_pwrite(), _pread(), _pwritev(), _preadv() and _fsync() prepare
pub data IocbCmd : Type 0 where
  cmd_pwrite cmd_pread cmd_pwritev cmd_preadv cmd_fsync : IocbCmd

-- `struct iocb`: `dsync` is RWF_DSYNC, `data` the context, none for NULL, and `eventfd` that of
-- io_set_eventfd().
pub record Iocb : Type 0 where
  pub op : IocbCmd
  pub fd : ℕ
  pub buf : ℕ
  pub len : ℕ
  pub off : ℕ
  pub dsync : Bool
  pub data_ : Option ℕ
  pub eventfd : Option ℕ

-- `struct io_event`: `data` none is NULL, and `res` a number or minus an `errno`.
pub record Event : Type 0 where
  pub data_ : Option ℕ
  pub res : Ret

-- `struct xnvme_queue_libaio` without its array of events, which only poke() uses; `efd` none
-- is -1.
pub record LibaioQueue (A : Type 0) : Type 0 where
  pub aio_ctx : A
  pub poll_io : Bool
  pub efd : Option ℕ

-- The functions of libaio on the context of a queue, with the world that commands work on, and the
-- ring behind the context, `struct xnvme_aio_ring`: `is_compatible` is whether it has the magic
-- number and no incompatible feature. `getevents` gives an `errno` or events, whose number it
-- returns. Reading `tail` lets time pass.
pub record Libaio (A W : Type 0) : Type 0 where
  pub queue_init : ℕ → W → Ret × A × W
  pub destroy : A → W → W
  pub eventfd : W → Ret × W
  pub close : ℕ → W → W
  pub submit : Iocb → A → W → Ret × A × W
  pub getevents : ℕ → ℕ → A → W → (Errno ⊎ List Event) × A × W
  pub is_compatible : A → Bool
  pub nr : A → ℕ
  pub head : A → ℕ
  pub tail : A → W → ℕ × A × W
  pub events : A → ℕ → Event
  pub set_head : ℕ → A → A

-- `max` as _linux_libaio_poke() corrects it
abbrev pub libaio_max : ℕ → ℕ → ℕ
libaio_max max outstanding =
    let max' = if max == 0 then outstanding else max in
    if ltb outstanding max' then outstanding else max'

-- The operation and the shift of a command with and without vectors; none is an opcode that is not
-- supported.
unfoldable pub libaio_io_switch : ℕ → IoOpc → Option (IocbCmd × ℕ)
libaio_io_switch ssw write = some (cmd_pwrite, ssw)
libaio_io_switch ssw read = some (cmd_pread, ssw)
libaio_io_switch ssw fs_write = some (cmd_pwrite, 0)
libaio_io_switch ssw fs_read = some (cmd_pread, 0)
libaio_io_switch ssw flush = some (cmd_fsync, 0)
libaio_io_switch ssw fs_flush = some (cmd_fsync, 0)
libaio_io_switch ssw _ = none

unfoldable pub libaio_iov_switch : ℕ → IoOpc → Option (IocbCmd × ℕ)
libaio_iov_switch ssw write = some (cmd_pwritev, ssw)
libaio_iov_switch ssw read = some (cmd_preadv, ssw)
libaio_iov_switch ssw fs_write = some (cmd_pwritev, 0)
libaio_iov_switch ssw fs_read = some (cmd_preadv, 0)
libaio_iov_switch ssw flush = some (cmd_fsync, 0)
libaio_iov_switch ssw fs_flush = some (cmd_fsync, 0)
libaio_iov_switch ssw _ = none

abbrev pub is_sync : IocbCmd → Bool
is_sync cmd_fsync = true
is_sync _ = false

-- `fd` is the descriptor of the device, and `ssw` the shift of its geometry.
module _ {A W : Type 0} (aio : Libaio A W) (fd ssw : ℕ) where
  -- The control block of a command: a synchronization has no buffer and no offset.
  unfoldable pub iocb_of : IocbCmd → ℕ → ℕ → ℕ → LibaioQueue A → Ctx → ℕ → Iocb
  iocb_of op shift buf len u c p = record {
    op = op;
    fd = fd;
    buf = if is_sync op then 0 else buf;
    len = if is_sync op then 0 else len;
    off = if is_sync op then 0 else shl64 (slba c.cmd) shift;
    dsync = fua c.cmd && is_nvm_write c.cmd;
    data_ = some p;
    eventfd = u.efd;
  }

  -- The submission of a control block, for the result of the switch. Any result of io_submit()
  -- but 1 is returned.
  unfoldable pub libaio_submit :
      Option (IocbCmd × ℕ) → ℕ → ℕ → ℕ → Queue (LibaioQueue A) W → Ret × Queue (LibaioQueue A) W
  unfolding iocb_of
  libaio_submit none buf len p q = (fail enosys, q)
  libaio_submit (some (op, shift)) buf len p q =
      let (err, a, w) =
        aio.submit (iocb_of op shift buf len q.be (q.ctxs p) p) q.be.aio_ctx q.world in
      let q' : Queue (LibaioQueue A) W = record q { be = record q.be { aio_ctx = a }; world = w } in
      elim err [
        | fail e ↦ (fail e, q')
        | value n ↦
            if n == 1
            then (value 0, record q' { outstanding = add32 q.outstanding 1 })
            else (value n, q')
      ]

  -- _linux_libaio_cmd_io()
  unfoldable pub libaio_cmd_io :
      ℕ → Payload → Queue (LibaioQueue A) W → Ret × Queue (LibaioQueue A) W
  unfolding libaio_submit libaio_io_switch io_opc
  libaio_cmd_io p pl q =
      if has_meta pl
      then (fail enotsup, q)
      else libaio_submit (libaio_io_switch ssw (io_opc (q.ctxs p).cmd.opcode)) pl.buf pl.nbytes p q

  -- _linux_libaio_cmd_iov(): the number of vectors is an int.
  unfoldable pub libaio_cmd_iov :
      ℕ → Payload → Queue (LibaioQueue A) W → Ret × Queue (LibaioQueue A) W
  unfolding libaio_submit libaio_iov_switch io_opc
  libaio_cmd_iov p pl q =
      if q.outstanding == q.capacity
      then (fail ebusy, q)
      else if has_meta pl
      then (fail enotsup, q)
      else libaio_submit (libaio_iov_switch ssw (io_opc (q.ctxs p).cmd.opcode)) pl.buf
          (pl.vec_cnt % 2 ^ 32) p q

  abbrev pub libaio_async : AsyncOps (LibaioQueue A) W
  libaio_async = record { cmd_io = libaio_cmd_io; cmd_iov = libaio_cmd_iov }

  -- The loop that copies events from the ring, with `n` rounds left: the events, and where it
  -- stopped.
  unfoldable pub copy_events : ℕ → ℕ → A → W → List Event × ℕ × A × W
  copy_events zero current a w = ([], current, a, w)
  copy_events (suc n) current a w =
      let (tail, a', w') = aio.tail a w in
      let (es, last, a2, w2) = copy_events n ((current + 1) % aio.nr a') a' w' in
      if current == tail then ([], current, a', w') else (aio.events a' current ∷ es, last, a2, w2)

  -- The first part of _linux_libaio_poke(): the events that have completed, at most `max`.
  unfoldable pub fetch_events : ℕ → Bool → A → W → (Errno ⊎ List Event) × A × W
  unfolding copy_events
  fetch_events max poll_io a w =
      let (es, current, a', w') = copy_events max (aio.head a) a w in
      if not (aio.is_compatible a)
      then aio.getevents (if poll_io then 0 else 1) max a w
      else (inr es, aio.set_head current a', w')

  -- _linux_libaio_init(): the result of calloc() for the array of events is not looked at.
  unfoldable pub libaio_init : ℕ → Bool → Queue (LibaioQueue A) W → Ret × Queue (LibaioQueue A) W
  libaio_init opts dev_poll_io q =
      let (err, a, w) = aio.queue_init q.capacity q.world in
      let u : LibaioQueue A = record {
        aio_ctx = a;
        poll_io = get_bits opts 0 1 == 1 || dev_poll_io;
        efd = none;
      } in
      ((if is_err err then err else value 0), record q { be = u; world = w })

  -- _linux_libaio_term() of a queue that is not NULL
  unfoldable pub libaio_term : LibaioQueue A → W → Ret × LibaioQueue A × W
  libaio_term u w =
      let w1 : W = elim u.efd [ none ↦ w | some efd ↦ aio.close efd w ] in
      (value 0, record u { efd = none }, aio.destroy u.aio_ctx w1)

  -- _linux_libaio_get_completion_fd()
  unfoldable pub libaio_completion_fd : LibaioQueue A → W → Ret × LibaioQueue A × W
  libaio_completion_fd u w =
      let (fd, w') = aio.eventfd w in
      elim u.efd [
        | some efd ↦ (value efd, u, w)
        | none ↦ elim fd [
          | fail e ↦ (fail e, u, w')
          | value efd ↦ (value efd, record u { efd = some efd }, w')
        ]
      ]

-- `react p q` is what the callback of the context at `p` does when it is called in the state `q`.
module _ {A W : Type 0} (aio : Libaio A W) (fd ssw : ℕ) (sync : SyncOps W)
    (react : ℕ → Queue (LibaioQueue A) W → List (Act W)) where
  -- The completion of a command in its context.
  unfoldable pub libaio_complete : Ret → Ctx → Ctx
  libaio_complete (value n) c = record c { cdw0 = n % 2 ^ 32 }
  libaio_complete (fail e) c = record c { cdw0 = 0; sc = errno_nr e % 256; sct = 7 }

  -- The loop over the events, with whether it met one without a context.
  unfoldable pub run_events : List Event → Queue (LibaioQueue A) W → Bool × Queue (LibaioQueue A) W
  unfolding libaio_complete run_acts
  run_events [] q = (false, q)
  run_events (e ∷ es) q = elim e.data_ [
    | none ↦ (true, q)
    | some p ↦
        let q' : Queue (LibaioQueue A) W = record q {
          ctxs = update q.ctxs p (libaio_complete e.res (q.ctxs p));
        } in
        run_events es (run_acts (libaio_async aio fd ssw) sync (react p q') q')
  ]

  -- _linux_libaio_poke(): the events are subtracted from `outstanding` after their callbacks.
  unfoldable pub libaio_poke : ℕ → Queue (LibaioQueue A) W → Ret × Queue (LibaioQueue A) W
  unfolding fetch_events run_events
  libaio_poke max q =
      let (got, a, w) =
        fetch_events aio fd ssw (libaio_max max q.outstanding) q.be.poll_io q.be.aio_ctx q.world in
      let q1 : Queue (LibaioQueue A) W = record q { be = record q.be { aio_ctx = a }; world = w } in
      elim got [
        | inl e ↦ (fail e, q1)
        | inr es ↦
            let (is_null, q2) = run_events es q1 in
            if is_null
            then (fail eio, record q2 { outstanding = sub32 q2.outstanding 1 })
            else (value (length es), record q2 { outstanding = sub32 q2.outstanding (length es) })
      ]
