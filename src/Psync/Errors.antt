-- ===== src/Psync/Errors.antt =====
-- The errors of the synchronous interface of POSIX files.
use xnvme.Common.{
  ℕ, ◌%◌, ◌≡◌, refl, sym, ◌∙◌, Bool, true, false, some, none, Option, value, shl64, ◌↔◌, ◌⊎◌, arith,
}
use xnvme.Cmd.{Ctx, Payload, slba}
use xnvme.Ramdisk.{IoOpc, io_opc, write, read, has_meta}
use xnvme.Psync.{Posix, Called, transferred, io_switch, leave, psync_cmd_io}

module _ {W : Type 0} (posix : Posix W) (ssw : ℕ) where
  -- The call that a command on blocks makes.
  unfoldable pub call : Bool → Ctx → Payload → W → Called W
  call true c pl w = posix.pwrite pl.buf pl.nbytes (shl64 (slba c.cmd) ssw) w
  call false c pl w = posix.pread pl.buf pl.nbytes (shl64 (slba c.cmd) ssw) w

  abbrev pub opcode_of : Bool → IoOpc
  opcode_of true = write
  opcode_of false = read

  io_switch-call :
      (is_write : Bool) (c : Ctx) (pl : Payload) (w : W)
      → (io_switch posix ssw (opcode_of is_write) c.cmd pl w).0
        ≡ transferred pl.nbytes (call is_write c pl w)
  unfolding io_switch call
  io_switch-call true c pl w = refl
  io_switch-call false c pl w = refl

  leave-value : (c : Ctx) (r : ℕ × Option ℕ × W) → ((leave posix ssw c r).0 ≡ value 0) ↔ (r.0 ≡ 0)
  unfolding leave
  leave-value c r = ground arith

  transferred-zero :
      (n : ℕ) (r : Called W) → (transferred n r ≡ 0) ↔ ((r.0 ≡ some n) ⊎ (r.1 % 256 ≡ 0))
  unfolding transferred
  transferred-zero n (none, errno, w) = ground arith
  transferred-zero n (some res, errno, w) = ground arith

  -- A read or write of blocks without metadata returns 0 from xnvme_be_cbi_sync_psync_cmd_io()
  -- just where the system call transferred all bytes or the low 8 bits of errno are 0: a
  -- transfer that is cut short is a success or an error by what errno happens to hold.
  pub psync_cmd_io-decides :
      (is_write : Bool) (c : Ctx) (pl : Payload) (w : W)
      → io_opc c.cmd.opcode ≡ opcode_of is_write
      → has_meta pl ≡ false
      → let (res, errno, w') = call is_write c pl w in
        ((psync_cmd_io posix ssw c pl w).0 ≡ value 0) ↔ ((res ≡ some pl.nbytes) ⊎ (errno % 256 ≡ 0))
  unfolding psync_cmd_io
  psync_cmd_io-decides is_write c pl w is plain =
      let sw : ℕ × Option ℕ × W = io_switch posix ssw (opcode_of is_write) c.cmd pl w in
      let (to, from) = leave-value c sw in
      let same : sw.0 ≡ transferred pl.nbytes (call is_write c pl w) =
        io_switch-call is_write c pl w in
      let (zero_to, zero_from) = transferred-zero pl.nbytes (call is_write c pl w) in
      rw (psync_cmd_io, plain, is)
        ((λ h. zero_to (sym same ∙ to h)), λ h. from (same ∙ zero_from h))
