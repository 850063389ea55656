-- ===== src/Psync.antt =====
-- lib/xnvme_be_cbi_sync_psync.c: commands run by the positioned reads and writes of POSIX.
pub mod Errors
pub mod Agrees
mod Tests
use xnvme.Common.{
  ℕ, zero, suc, ◌+◌, ◌-◌, ◌%◌, ◌^◌, Bool, true, false, ◌==◌, if◌then◌else◌, Option, none, some,
  shl64, Ret, value, fail, errno_of,
}
use xnvme.Cmd.{Cmd, Ctx, Payload, slba}
use xnvme.Queue.Pass.{SyncOps}
use xnvme.Ramdisk.{IoOpc, io_opc, write, read, fs_write, fs_read, flush, fs_flush, has_meta}

-- What a system call gives: its result, none for -1, the value of errno behind it, and the world.
abbrev pub Called : Type 0 → Type 0
Called W = Option ℕ × ℕ × W

-- The calls on the descriptor of the device: buffer or vectors, size or count, and offset.
pub record Posix (W : Type 0) : Type 0 where
  pub pread : ℕ → ℕ → ℕ → W → Called W
  pub pwrite : ℕ → ℕ → ℕ → W → Called W
  pub preadv : ℕ → ℕ → ℕ → W → Called W
  pub pwritev : ℕ → ℕ → ℕ → W → Called W
  pub fsync : W → Called W

-- `res != nbytes`, for a size below 2^63: of 2^64 - 1, -1 would be no short transfer.
abbrev pub is_short : Option ℕ → ℕ → Bool
is_short none n = true
is_short (some res) n = if res == n then false else true

-- The low half of `cpl.result`: -1 is all ones.
abbrev result_of : Option ℕ → ℕ
result_of none = 2 ^ 32 - 1
result_of (some res) = res % 2 ^ 32

-- The status code of a transfer of `n` bytes: errno in 8 bits where it is short, or else 0.
unfoldable pub transferred : {W : Type 0} → ℕ → Called W → ℕ
transferred n (res, errno, w) = if is_short res n then errno % 256 else 0

module _ {W : Type 0} (posix : Posix W) (ssw : ℕ) where
  -- The switch: status code, result and world.
  unfoldable pub io_switch : IoOpc → Cmd → Payload → W → ℕ × Option ℕ × W
  unfolding transferred
  io_switch write c pl w =
      let r = posix.pwrite pl.buf pl.nbytes (shl64 (slba c) ssw) w in
      (transferred pl.nbytes r, r.0, r.2)
  io_switch read c pl w =
      let r = posix.pread pl.buf pl.nbytes (shl64 (slba c) ssw) w in
      (transferred pl.nbytes r, r.0, r.2)
  io_switch fs_write c pl w =
      let r = posix.pwrite pl.buf pl.nbytes (slba c) w in (transferred pl.nbytes r, r.0, r.2)
  io_switch fs_read c pl w =
      let r = posix.pread pl.buf pl.nbytes (slba c) w in (transferred pl.nbytes r, r.0, r.2)
  io_switch flush c pl w = let r = posix.fsync w in (transferred 0 r, r.0, r.2)
  io_switch fs_flush c pl w = let r = posix.fsync w in (transferred 0 r, r.0, r.2)
  io_switch _ c pl w = (38, some 38, w)

  unfoldable pub iov_switch : IoOpc → Cmd → Payload → W → ℕ × Option ℕ × W
  unfolding transferred
  iov_switch write c pl w =
      let r = posix.pwritev pl.buf pl.vec_cnt (shl64 (slba c) ssw) w in
      (transferred pl.nbytes r, r.0, r.2)
  iov_switch read c pl w =
      let r = posix.preadv pl.buf pl.vec_cnt (shl64 (slba c) ssw) w in
      (transferred pl.nbytes r, r.0, r.2)
  iov_switch fs_write c pl w =
      let r = posix.pwritev pl.buf pl.vec_cnt (slba c) w in (transferred pl.nbytes r, r.0, r.2)
  iov_switch fs_read c pl w =
      let r = posix.preadv pl.buf pl.vec_cnt (slba c) w in (transferred pl.nbytes r, r.0, r.2)
  iov_switch flush c pl w = let r = posix.fsync w in (transferred 0 r, r.0, r.2)
  iov_switch fs_flush c pl w = let r = posix.fsync w in (transferred 0 r, r.0, r.2)
  iov_switch _ c pl w = (38, some 38, w)

  -- From the label `exit` on.
  unfoldable pub leave : Ctx → ℕ × Option ℕ × W → Ret × Ctx × W
  leave c (sc, res, w) =
      if sc == 0
      then (value 0, record c { cdw0 = result_of res }, w)
      else (fail (errno_of sc), record c { cdw0 = 0; sc = sc; sct = 7 }, w)

  -- xnvme_be_cbi_sync_psync_cmd_io() and xnvme_be_cbi_sync_psync_cmd_iov()
  unfoldable pub psync_cmd_io : Ctx → Payload → W → Ret × Ctx × W
  unfolding io_switch leave io_opc
  psync_cmd_io c pl w =
      leave c (if has_meta pl then (95, some 95, w) else io_switch (io_opc c.cmd.opcode) c.cmd pl w)

  unfoldable pub psync_cmd_iov : Ctx → Payload → W → Ret × Ctx × W
  unfolding iov_switch leave io_opc
  psync_cmd_iov c pl w =
      leave c
        (if has_meta pl then (95, some 95, w) else iov_switch (io_opc c.cmd.opcode) c.cmd pl w)

  abbrev pub psync : SyncOps W
  psync = record { cmd_io = psync_cmd_io; cmd_iov = psync_cmd_iov }
