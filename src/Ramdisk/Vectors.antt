-- ===== src/Ramdisk/Vectors.antt =====
-- Vectored writes to a ramdisk.
use xnvme.Common.{ℕ, zero, suc, ◌+◌, ◌≡◌, refl, false, [], ◌∷◌, value}
use xnvme.Cmd.{Ctx, Payload, slba}
use xnvme.Mem.{Mem, memcpy, bytes}
use xnvme.Mem.Gather.{Segments, total, copy_segments, gather, AllApart, copy_segments-gather}
use xnvme.Ramdisk.{
  Disk, Iovec, IoOpc, io_opc, write, lba_addr, run_iov, ramdisk_cmd_iov, has_meta, write_vecs,
}

-- The vectors from `i` on as segments of memory.
unfoldable pub segments : ℕ → ℕ → (ℕ → Iovec) → Segments
segments zero i dvec = []
segments (suc n) i dvec = ((dvec i).iov_base, (dvec i).iov_len) ∷ segments n (i + 1) dvec

write_vecs-segments :
    (n i : ℕ) (dvec : ℕ → Iovec) (at : ℕ) (m : Mem)
    → write_vecs n i dvec at m ≡ copy_segments at (segments n i dvec) m
unfolding write_vecs copy_segments segments
write_vecs-segments zero i dvec at m = refl
write_vecs-segments (suc n) i dvec at m =
    write_vecs-segments n (i + 1) dvec (at + (dvec i).iov_len)
      (memcpy at (dvec i).iov_base (dvec i).iov_len m)

module _ (c : Ctx) (pl : Payload) (d : Disk) where
  pub cmd_iov-run :
      (o : IoOpc)
      → io_opc c.cmd.opcode ≡ o
      → has_meta pl ≡ false
      → ramdisk_cmd_iov c pl d ≡ ((run_iov o c.cmd pl d).0, c, (run_iov o c.cmd pl d).1)
  unfolding ramdisk_cmd_iov
  cmd_iov-run o is none = rw (ramdisk_cmd_iov, none, is)

  -- A vectored write without metadata puts the bytes of its vectors, in order and without a
  -- gap, into the blocks that it names, where no vector touches these.
  pub writev-gathers :
      io_opc c.cmd.opcode ≡ write
      → has_meta pl ≡ false
      → let vecs = segments pl.vec_cnt 0 (d.vecs pl.buf) in
        let at = lba_addr d (slba c.cmd) in
        AllApart vecs at (total vecs)
        → let (err, c', d') = ramdisk_cmd_iov c pl d in
          (err ≡ value 0) × (bytes d'.mem at (total vecs) ≡ gather d.mem vecs)
  unfolding run_iov
  writev-gathers is none apart =
      let vecs : Segments = segments pl.vec_cnt 0 (d.vecs pl.buf) in
      let at : ℕ = lba_addr d (slba c.cmd) in
      rw (cmd_iov-run write is none) (
        refl,
        rw (write_vecs-segments pl.vec_cnt 0 (d.vecs pl.buf) at d.mem)
            (copy_segments-gather vecs at d.mem apart),
      )
