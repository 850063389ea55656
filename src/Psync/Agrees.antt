-- ===== src/Psync/Agrees.antt =====
-- The synchronous interface of POSIX files beside that of the ramdisk.
use xnvme.Common.{ℕ, ◌+◌, ◌≡◌, refl, ap, ◌∙◌, Bool, true, false, some, value, arith, ==_refl, shl64}
use xnvme.Cmd.{Cmd, Ctx, Payload, slba}
use xnvme.Mem.{memcpy}
use xnvme.Ramdisk.{
  Disk, IoOpc, io_opc, write, read, fs_write, fs_read, flush, fs_flush, has_meta, set_mem, run_io,
  ramdisk_cmd_io,
}
use xnvme.Ramdisk.Media.{cmd_io-run}
use xnvme.Psync.{Posix, Called, transferred, io_switch, leave, psync_cmd_io}

-- The opcodes that POSIX files have calls for.
abbrev pub is_posix : IoOpc → Bool
is_posix write = true
is_posix read = true
is_posix fs_write = true
is_posix fs_read = true
is_posix flush = true
is_posix fs_flush = true
is_posix _ = false

-- The descriptor names a file whose bytes are the medium, and calls on it are not cut short.
pub record IsFile (posix : Posix Disk) : Type 0 where
  pub writes :
      (buf n off : ℕ) (d : Disk)
      → (e : ℕ) × (posix.pwrite buf n off d
          ≡ (some n, e, set_mem (memcpy (d.ramdisk + off) buf n d.mem) d))
  pub reads :
      (buf n off : ℕ) (d : Disk)
      → (e : ℕ) × (posix.pread buf n off d
          ≡ (some n, e, set_mem (memcpy buf (d.ramdisk + off) n d.mem) d))
  pub syncs : (d : Disk) → (e : ℕ) × (posix.fsync d ≡ (some 0, e, d))

transferred-whole :
    {W : Type 0} (n : ℕ) {r : Called W} {e : ℕ} {w : W} → r ≡ (some n, e, w) → transferred n r ≡ 0
unfolding transferred
transferred-whole n eq = rw (eq, transferred, ==_refl n)

module _ (posix : Posix Disk) (file : IsFile posix) (ssw : ℕ) where
  io_switch-run_io :
      (o : IoOpc) (c : Cmd) (pl : Payload) (d : Disk)
      → d.ssw ≡ ssw
      → is_posix o ≡ true
      → ((io_switch posix ssw o c pl d).0 ≡ 0)
        × ((io_switch posix ssw o c pl d).2 ≡ (run_io o c pl d).1)
        × ((run_io o c pl d).0 ≡ value 0)
  unfolding io_switch run_io
  io_switch-run_io write c pl d same is =
      let (e, eq) = file.writes pl.buf pl.nbytes (shl64 (slba c) ssw) d in
      (transferred-whole pl.nbytes eq, ap (λ r. r.2) eq ∙ rw same refl, refl)
  io_switch-run_io read c pl d same is =
      let (e, eq) = file.reads pl.buf pl.nbytes (shl64 (slba c) ssw) d in
      (transferred-whole pl.nbytes eq, ap (λ r. r.2) eq ∙ rw same refl, refl)
  io_switch-run_io fs_write c pl d same is =
      let (e, eq) = file.writes pl.buf pl.nbytes (slba c) d in
      (transferred-whole pl.nbytes eq, ap (λ r. r.2) eq, refl)
  io_switch-run_io fs_read c pl d same is =
      let (e, eq) = file.reads pl.buf pl.nbytes (slba c) d in
      (transferred-whole pl.nbytes eq, ap (λ r. r.2) eq, refl)
  io_switch-run_io flush c pl d same is =
      let (e, eq) = file.syncs d in (transferred-whole 0 eq, ap (λ r. r.2) eq, refl)
  io_switch-run_io fs_flush c pl d same is =
      let (e, eq) = file.syncs d in (transferred-whole 0 eq, ap (λ r. r.2) eq, refl)
  io_switch-run_io _ c pl d same is = absurd (ground (arith, is))

  -- On a descriptor whose file has the bytes of a medium, with calls that are not cut short, a
  -- command without metadata that reads, writes or flushes blocks or files returns from
  -- xnvme_be_cbi_sync_psync_cmd_io() what it returns from the ramdisk, the value 0, and leaves
  -- memory and medium as the ramdisk does.
  pub psync-ramdisk :
      (c : Ctx) (pl : Payload) (d : Disk)
      → d.ssw ≡ ssw
      → is_posix (io_opc c.cmd.opcode) ≡ true
      → has_meta pl ≡ false
      → let (err, c', d') = psync_cmd_io posix ssw c pl d in
        let (err2, c2, d2) = ramdisk_cmd_io c pl d in (err ≡ err2) × (err ≡ value 0) × (d' ≡ d2)
  unfolding psync_cmd_io leave
  psync-ramdisk c pl d same is plain =
      let (sc, world, ok) = io_switch-run_io (io_opc c.cmd.opcode) c.cmd pl d same is in
      rw (cmd_io-run c pl d (io_opc c.cmd.opcode) refl plain, plain)
        (rw (leave, sc, world, ok) (refl, refl, refl))
