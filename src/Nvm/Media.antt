-- ===== src/Nvm/Media.antt =====
-- NVM commands on a ramdisk, passed to the emulated queue and drained.
use xnvme.Common.{
  ℕ, suc, ◌+◌, ◌%◌, ◌^◌, ◌≤◌, ◌≡◌, ◌≢◌, refl, sym, ap, ◌∙◌, [], some, arith, value, false, ==_ne,
  mul32,
}
use xnvme.Cmd.{Cmd, Payload, io_mode, cmd_async, slba}
use xnvme.Mem.{bytes}
use xnvme.Queue.{Queue}
use xnvme.Queue.Drain.{drain}
use xnvme.Geo.{Geo}
use xnvme.Emu.{Qpair, narrow, emu_async, emu_poke}
use xnvme.Emu.Inv.{IsValid}
use xnvme.Emu.Fifo.{noop}
use xnvme.Ramdisk.{Disk, io_opc, write, read, fs_write, fs_read, ramdisk_sync, has_meta}
use xnvme.Ramdisk.Media.{read-write}
use xnvme.Nvm.{with_cmd, prep_nvm, rw_payload, nvm_read, nvm_write}
use xnvme.Nvm.Roundtrip.{issue_two-drain}

-- A size as an entry keeps it.
mul32-narrow : (a b : ℕ) → mul32 a b % 2 ^ 32 ≡ mul32 a b
mul32-narrow a b = omega arith

-- The payload of a transfer without metadata, as an entry keeps it.
abbrev pub kept : Payload → Payload
kept pl = narrow (record pl { vec_cnt = 0 })

rw_payload-kept :
    (geo : Geo) (nlb buf : ℕ)
    → buf ≢ 0
    → let pl = kept (rw_payload geo nlb buf 0) in
      (has_meta pl ≡ false) × (pl.buf ≡ buf) × (pl.nbytes ≡ mul32 geo.lba_nbytes (nlb + 1))
unfolding rw_payload
rw_payload-kept geo nlb buf ne =
    (refl, refl, rw (==_ne buf 0 ne) (mul32-narrow geo.lba_nbytes (nlb + 1)))

prep_nvm-slba :
    (o o' nsid lba nlb : ℕ) (c c' : Cmd)
    → slba (prep_nvm o nsid lba nlb c) ≡ slba (prep_nvm o' nsid lba nlb c')
unfolding prep_nvm
prep_nvm-slba o o' nsid lba nlb c c' = refl

prep_nvm-opcode : (o nsid lba nlb : ℕ) (c : Cmd) → (prep_nvm o nsid lba nlb c).opcode ≡ o
unfolding prep_nvm
prep_nvm-opcode o nsid lba nlb c = refl

-- The opcodes that the commands are prepared with.
pub opcodes :
    (io_opc 0x01 ≡ write)
    × (io_opc 0x02 ≡ read)
    × (io_opc 0xAC ≡ fs_write)
    × (io_opc 0xDC ≡ fs_read)
unfolding io_opc
opcodes = (refl, refl, refl, refl)

module _ (fuel p r : ℕ) (q : Queue Qpair Disk) (h : IsValid q) (idle : q.be.sq ≡ [])
    (fits : 2 ≤ q.capacity) (ne : p ≢ r) (mp : io_mode (q.ctxs p) ≡ cmd_async)
    (mr : io_mode (q.ctxs r) ≡ cmd_async) where
  -- On an idle, valid emulated queue of capacity two or more over a ramdisk, with two different
  -- contexts of asynchronous mode: when xnvme_nvm_write() and then xnvme_nvm_read() of the same
  -- blocks have been called, from and to buffers that are not NULL and without metadata,
  -- draining with two rounds of fuel or more returns 2, the buffer that was read to holds the
  -- bytes that the other held at first, and nothing is outstanding; callbacks do nothing here.
  pub nvm_read-nvm_write :
      (geo : Geo) (nsid lba nlb wbuf rbuf : ℕ)
      → wbuf ≢ 0
      → rbuf ≢ 0
      → let q1 = (nvm_write emu_async ramdisk_sync geo p nsid lba nlb wbuf 0 q).1 in
        let q2 = (nvm_read emu_async ramdisk_sync geo r nsid lba nlb rbuf 0 q1).1 in
        let n = mul32 geo.lba_nbytes (nlb + 1) in
        (q' : Queue Qpair Disk) × (drain (emu_poke ramdisk_sync noop) (suc (suc fuel)) q2
          ≡ some (value 2, q'))
        × (bytes q'.world.mem rbuf n ≡ bytes q.world.mem wbuf n)
        × (q'.outstanding ≡ 0)
  unfolding nvm_read nvm_write
  nvm_read-nvm_write geo nsid lba nlb wbuf rbuf some_w some_r =
      let f : Cmd → Cmd = prep_nvm 0x01 nsid lba nlb in
      let g : Cmd → Cmd = prep_nvm 0x02 nsid lba nlb in
      let plw : Payload = rw_payload geo nlb wbuf 0 in
      let plr : Payload = rw_payload geo nlb rbuf 0 in
      let (q', drained, world, _, _, out) =
        issue_two-drain ramdisk_sync fuel p r f g plw plr q h idle fits ne mp mr in
      let (none_w, _, size_w) = rw_payload-kept geo nlb wbuf some_w in
      let (none_r, _, size_r) = rw_payload-kept geo nlb rbuf some_r in
      let (_, held) =
        read-write (with_cmd f (q.ctxs p)) (with_cmd g (q.ctxs r)) (kept plw) (kept plr) q.world
          (ap io_opc (prep_nvm-opcode 0x01 nsid lba nlb (q.ctxs p).cmd) ∙ opcodes.0)
          (ap io_opc (prep_nvm-opcode 0x02 nsid lba nlb (q.ctxs r).cmd) ∙ opcodes.1) none_w none_r
          (prep_nvm-slba 2 1 nsid lba nlb (q.ctxs r).cmd (q.ctxs p).cmd) (size_r ∙ sym size_w) in
      (
        q',
        drained,
        ap (λ d. bytes d.mem rbuf (mul32 geo.lba_nbytes (nlb + 1))) world
            ∙ ap (bytes _ rbuf) (sym size_r)
            ∙ held
            ∙ ap (bytes q.world.mem wbuf) size_w,
        out,
      )
