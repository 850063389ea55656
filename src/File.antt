-- ===== src/File.antt =====
-- lib/xnvme_file.c: the commands on files, prepared in a context and passed on.
mod Tests
use xnvme.Common.{
  ℕ, suc, ◌%◌, ◌^◌, ◌≤◌, ◌<◌, ◌≡◌, ◌≢◌, refl, sym, ap, ◌∙◌, [], some, arith, value, Ret,
}
use xnvme.Cmd.{Cmd, Ctx, Payload, set_slba, io_mode, cmd_async}
use xnvme.Mem.{bytes}
use xnvme.Queue.{Queue}
use xnvme.Queue.Pass.{SyncOps, AsyncOps}
use xnvme.Queue.Drain.{drain}
use xnvme.Emu.{Qpair, emu_async, emu_poke}
use xnvme.Emu.Inv.{IsValid}
use xnvme.Emu.Fifo.{noop}
use xnvme.Ramdisk.{Disk, ramdisk_sync}
use xnvme.Ramdisk.Media.{fs_read-fs_write}
use xnvme.Nvm.{with_cmd, set_common, data_payload, issue}
use xnvme.Nvm.Roundtrip.{issue_two-drain}
use xnvme.Nvm.Media.{kept, opcodes}

-- The fields of a transfer at a byte offset. The number of blocks is left as it is.
abbrev prep_file : ℕ → ℕ → ℕ → Cmd → Cmd
prep_file opcode nsid offset c = set_slba offset (set_common opcode nsid c)

-- xnvme_file_pread(), xnvme_file_pwrite() and xnvme_file_sync(), with `nsid` the namespace of the
-- device. The context of the last is a fresh one, at `p` here.
module _ {B W : Type 0} (async : AsyncOps B W) (sync : SyncOps W) where
  unfoldable pub file_pread : ℕ → ℕ → ℕ → ℕ → ℕ → Queue B W → Ret × Queue B W
  unfolding issue
  file_pread p nsid buf count offset =
      issue async sync p (prep_file 0xDC nsid offset) (data_payload buf count)

  unfoldable pub file_pwrite : ℕ → ℕ → ℕ → ℕ → ℕ → Queue B W → Ret × Queue B W
  unfolding issue
  file_pwrite p nsid buf count offset =
      issue async sync p (prep_file 0xAC nsid offset) (data_payload buf count)

  unfoldable pub file_sync : ℕ → ℕ → Queue B W → Ret × Queue B W
  unfolding issue
  file_sync p nsid = issue async sync p (set_common 0xAD nsid) (data_payload 0 0)

module _ (fuel p r : ℕ) (q : Queue Qpair Disk) (h : IsValid q) (idle : q.be.sq ≡ [])
    (fits : 2 ≤ q.capacity) (ne : p ≢ r) (mp : io_mode (q.ctxs p) ≡ cmd_async)
    (mr : io_mode (q.ctxs r) ≡ cmd_async) where
  -- On an idle, valid emulated queue of capacity two or more over a ramdisk, with two different
  -- contexts of asynchronous mode: when xnvme_file_pwrite() and then xnvme_file_pread() of
  -- fewer than 2^32 bytes at the same offset have been called, draining with two rounds of fuel
  -- or more returns 2, the buffer that was read to holds the bytes that the other held at
  -- first, and nothing is outstanding; callbacks do nothing here.
  pub file_pread-file_pwrite :
      (nsid wbuf rbuf count offset : ℕ)
      → count < 2 ^ 32
      → let q1 = (file_pwrite emu_async ramdisk_sync p nsid wbuf count offset q).1 in
        let q2 = (file_pread emu_async ramdisk_sync r nsid rbuf count offset q1).1 in
        (q' : Queue Qpair Disk) × (drain (emu_poke ramdisk_sync noop) (suc (suc fuel)) q2
          ≡ some (value 2, q'))
        × (bytes q'.world.mem rbuf count ≡ bytes q.world.mem wbuf count)
        × (q'.outstanding ≡ 0)
  unfolding file_pread file_pwrite
  file_pread-file_pwrite nsid wbuf rbuf count offset small =
      let f : Cmd → Cmd = prep_file 0xAC nsid offset in
      let g : Cmd → Cmd = prep_file 0xDC nsid offset in
      let plw : Payload = data_payload wbuf count in
      let plr : Payload = data_payload rbuf count in
      let (q', drained, world, _, _, out) =
        issue_two-drain ramdisk_sync fuel p r f g plw plr q h idle fits ne mp mr in
      let size : count % 2 ^ 32 ≡ count = omega arith in
      let (_, held) =
        fs_read-fs_write (with_cmd f (q.ctxs p)) (with_cmd g (q.ctxs r)) (kept plw) (kept plr)
          q.world opcodes.2 opcodes.3 refl refl refl refl in
      (
        q',
        drained,
        ap (λ d. bytes d.mem rbuf count) world
            ∙ ap (bytes _ rbuf) (sym size)
            ∙ held
            ∙ ap (bytes q.world.mem wbuf) size,
        out,
      )
