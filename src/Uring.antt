-- ===== src/Uring.antt =====
-- lib/xnvme_be_linux_async_liburing.c: asynchronous commands run by io_uring.
pub mod Inv
pub mod Setup
mod Tests
use xnvme.Common.{
  ℕ, zero, suc, ◌+◌, ◌-◌, ◌*◌, ◌/◌, ◌%◌, ◌^◌, Bool, true, false, not, ◌&&◌, ◌||◌, Option, none,
  some, ◌==◌, ltb, if◌then◌else◌, add32, sub32, shl64, get_bits, Ret, value, fail, is_neg, enosys,
  enotsup, ebusy, errno_of, errno_nr, List, [], ◌∷◌,
}
use xnvme.Cmd.{Cmd, Ctx, Payload, slba, update}
use xnvme.Queue.{Queue}
use xnvme.Queue.Pass.{SyncOps, AsyncOps, Act, run_acts}
use xnvme.Ramdisk.{IoOpc, io_opc, write, read, fs_write, fs_read, flush, fs_flush, has_meta}

-- `IORING_OP_WRITE`, `_READ`, `_WRITEV`, `_READV` and `_FSYNC`
pub data UringOp : Type 0 where
  op_write op_read op_writev op_readv op_fsync : UringOp

-- The fields of a submission-queue entry of io_uring that are written: `fixed` is
-- IOSQE_FIXED_FILE, and `dsync` is RWF_DSYNC.
pub record Sqe : Type 0 where
  pub op : UringOp
  pub fd : ℕ
  pub addr : ℕ
  pub len : ℕ
  pub off : ℕ
  pub fixed : Bool
  pub dsync : Bool
  pub user_data : ℕ

-- `struct xnvme_queue_liburing` with its ring; `efd` none is -1.
pub record UringQueue (R : Type 0) : Type 0 where
  pub ring : R
  pub poll_sq : Bool
  pub poll_io : Bool
  pub batching : Bool
  pub efd : Option ℕ

-- The functions of liburing on the ring of a queue, with the world that commands work on.
-- `get_sqe` tells whether there is an entry, which `fill` then writes. `peek_cqe` gives the
-- `user_data` of a completion with its result, a number or minus an `errno`; none is -EAGAIN.
pub record Liburing (R W : Type 0) : Type 0 where
  pub get_sqe : R → Bool × R
  pub fill : Sqe → R → R
  pub submit : R → W → Ret × R × W
  pub peek_cqe : R → W → Option (ℕ × Ret) × R × W
  pub cqe_seen : R → R

-- The bit `cmd.nvm.fua`
abbrev pub fua : Cmd → Bool
fua c = get_bits c.cdw12 30 1 == 1

-- `max` as xnvme_be_linux_liburing_poke() corrects it
abbrev pub uring_max : ℕ → ℕ → ℕ
uring_max max outstanding =
    let max' = if max == 0 then outstanding else max in
    if ltb outstanding max' then outstanding else max'

-- The opcode and the shift of a command with and without vectors; none is an opcode that is not
-- supported.
unfoldable pub uring_io_switch : ℕ → IoOpc → Option (UringOp × ℕ)
uring_io_switch ssw write = some (op_write, ssw)
uring_io_switch ssw fs_write = some (op_write, 0)
uring_io_switch ssw read = some (op_read, ssw)
uring_io_switch ssw fs_read = some (op_read, 0)
uring_io_switch ssw flush = some (op_fsync, 0)
uring_io_switch ssw fs_flush = some (op_fsync, 0)
uring_io_switch ssw _ = none

unfoldable pub uring_iov_switch : ℕ → IoOpc → Option (UringOp × ℕ)
uring_iov_switch ssw write = some (op_writev, ssw)
uring_iov_switch ssw fs_write = some (op_writev, 0)
uring_iov_switch ssw read = some (op_readv, ssw)
uring_iov_switch ssw fs_read = some (op_readv, 0)
uring_iov_switch ssw flush = some (op_fsync, 0)
uring_iov_switch ssw fs_flush = some (op_fsync, 0)
uring_iov_switch ssw _ = none

abbrev pub is_fsync : UringOp → Bool
is_fsync op_fsync = true
is_fsync _ = false

-- `ctx->cmd.common.opcode == XNVME_SPEC_NVM_OPC_WRITE`
abbrev pub is_nvm_write : Cmd → Bool
is_nvm_write c = c.opcode == 1

-- `fd` is the descriptor of the device, and `ssw` the shift of its geometry.
module _ {R W : Type 0} (uring : Liburing R W) (fd ssw : ℕ) where
  -- The entry of a command: a synchronization has no buffer and no offset.
  unfoldable pub sqe_of : UringOp → ℕ → ℕ → ℕ → UringQueue R → Ctx → ℕ → Sqe
  sqe_of op shift addr len u c p = record {
    op = op;
    fd = if u.poll_sq then 0 else fd;
    addr = if is_fsync op then 0 else addr;
    len = if is_fsync op then 0 else len;
    off = if is_fsync op then 0 else shl64 (slba c.cmd) shift;
    fixed = u.poll_sq;
    dsync = not (is_fsync op) && (is_nvm_write c.cmd && fua c.cmd);
    user_data = p;
  }

  -- From io_uring_get_sqe() to the end of a submission.
  unfoldable pub send : Sqe → Queue (UringQueue R) W → Ret × Queue (UringQueue R) W
  send e q =
      let (found, r) = uring.get_sqe q.be.ring in
      let filled : R = uring.fill e r in
      let (err, r', w) = uring.submit filled q.world in
      let sent : Queue (UringQueue R) W = record q { be = record q.be { ring = r' }; world = w } in
      if not found
      then (fail (errno_of 11), record q { be = record q.be { ring = r } })
      else if q.be.batching
      then (
        value 0,
        record q { be = record q.be { ring = filled }; outstanding = add32 q.outstanding 1 },
      )
      else if is_neg err
      then (err, sent)
      else (value 0, record sent { outstanding = add32 q.outstanding 1 })

  -- The command of the context at `p`, for the result of its switch.
  unfoldable pub dispatch :
      Option (UringOp × ℕ) → ℕ → ℕ → ℕ → Queue (UringQueue R) W → Ret × Queue (UringQueue R) W
  unfolding sqe_of send
  dispatch none addr len p q = (fail enosys, q)
  dispatch (some (op, shift)) addr len p q =
      if is_fsync op && q.be.poll_io
      then (fail enosys, q)
      else send (sqe_of op shift addr len q.be (q.ctxs p) p) q

  -- xnvme_be_linux_liburing_cmd_io(): the length is a field of 32 bits.
  unfoldable pub liburing_cmd_io :
      ℕ → Payload → Queue (UringQueue R) W → Ret × Queue (UringQueue R) W
  unfolding dispatch uring_io_switch io_opc
  liburing_cmd_io p pl q =
      if has_meta pl
      then (fail enotsup, q)
      else dispatch (uring_io_switch ssw (io_opc (q.ctxs p).cmd.opcode)) pl.buf (pl.nbytes % 2 ^ 32)
          p q

  -- xnvme_be_linux_liburing_cmd_iov()
  unfoldable pub liburing_cmd_iov :
      ℕ → Payload → Queue (UringQueue R) W → Ret × Queue (UringQueue R) W
  unfolding dispatch uring_iov_switch io_opc
  liburing_cmd_iov p pl q =
      if q.outstanding == q.capacity
      then (fail ebusy, q)
      else if has_meta pl
      then (fail enotsup, q)
      else dispatch (uring_iov_switch ssw (io_opc (q.ctxs p).cmd.opcode)) pl.buf
          (pl.vec_cnt % 2 ^ 32) p q

  abbrev pub liburing_async : AsyncOps (UringQueue R) W
  liburing_async = record { cmd_io = liburing_cmd_io; cmd_iov = liburing_cmd_iov }

-- `react p q` is what the callback of the context at `p` does when it is called in the state `q`.
module _ {R W : Type 0} (uring : Liburing R W) (fd ssw : ℕ) (sync : SyncOps W)
    (react : ℕ → Queue (UringQueue R) W → List (Act W)) where
  -- The completion of a command in its context.
  unfoldable pub complete : Ret → Ctx → Ctx
  complete (value n) c = record c { cdw0 = n % 2 ^ 32 }
  complete (fail e) c = record c { cdw0 = 0; sc = errno_nr e % 256; sct = 7 }

  -- A round of the loop of xnvme_be_linux_liburing_poke(), for a completion: it is counted and
  -- handed back before the callback.
  unfoldable pub uring_round : ℕ → Ret → Queue (UringQueue R) W → Queue (UringQueue R) W
  unfolding complete run_acts
  uring_round p res q =
      let q' : Queue (UringQueue R) W = record q {
        ctxs = update q.ctxs p (complete res (q.ctxs p));
        outstanding = sub32 q.outstanding 1;
        be = record q.be { ring = uring.cqe_seen q.be.ring };
      } in
      run_acts (liburing_async uring fd ssw) sync (react p q') q'

  -- The loop with `n` rounds left. io_uring_peek_cqe() fails with EAGAIN only.
  unfoldable pub uring_loop : ℕ → ℕ → Queue (UringQueue R) W → ℕ × Queue (UringQueue R) W
  unfolding uring_round
  uring_loop zero completed q = (completed, q)
  uring_loop (suc n) completed q =
      let (found, r, w) = uring.peek_cqe q.be.ring q.world in
      let q' : Queue (UringQueue R) W = record q { be = record q.be { ring = r }; world = w } in
      elim found [
        | none ↦ (completed, q')
        | some (p, res) ↦ uring_loop n (completed + 1) (uring_round p res q')
      ]

  -- xnvme_be_linux_liburing_poke(): `max` is corrected before the submission of a batch.
  unfoldable pub liburing_poke : ℕ → Queue (UringQueue R) W → Ret × Queue (UringQueue R) W
  unfolding uring_loop
  liburing_poke max q =
      let n : ℕ = uring_max max q.outstanding in
      let (err, r, w) = uring.submit q.be.ring q.world in
      let sent : Queue (UringQueue R) W = record q { be = record q.be { ring = r }; world = w } in
      let (k, ran) = uring_loop n 0 q in
      let (k', ran') = uring_loop n 0 sent in
      if not q.be.batching
      then (value k, ran)
      else if is_neg err
      then (err, sent)
      else (value k', ran')
