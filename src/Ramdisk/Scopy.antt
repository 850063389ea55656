-- ===== src/Ramdisk/Scopy.antt =====
-- Simple copy on a ramdisk.
use xnvme.Common.{
  ℕ, zero, suc, ◌+◌, ◌<◌, ◌^◌, ◌≡◌, refl, ap, ◌∙◌, false, [], ◌∷◌, arith, value, add64,
}
use xnvme.Cmd.{Ctx, Payload, slba, scopy_nr}
use xnvme.Mem.{Mem, memcpy, bytes}
use xnvme.Mem.Gather.{Segments, total, copy_segments, gather, AllApart, copy_segments-gather}
use xnvme.Ramdisk.{
  Disk, Range, io_opc, scopy, lba_addr, blocks_nbytes, set_mem, run_io, ramdisk_cmd_io, has_meta,
  scopy_from,
}
use xnvme.Ramdisk.Media.{cmd_io-run}

-- The source ranges from `i` on as segments of memory.
unfoldable pub sources : ℕ → ℕ → (ℕ → Range) → Disk → Segments
sources zero i ranges d = []
sources (suc n) i ranges d =
    (lba_addr d (ranges i).slba, blocks_nbytes d (ranges i).nlb) ∷ sources n (i + 1) ranges d

sources-set_mem :
    (n i : ℕ) (ranges : ℕ → Range) (m : Mem) (d : Disk)
    → sources n i ranges (set_mem m d) ≡ sources n i ranges d
unfolding sources
sources-set_mem zero i ranges m d = refl
sources-set_mem (suc n) i ranges m d =
    ap (λ l. (lba_addr d (ranges i).slba, blocks_nbytes d (ranges i).nlb) ∷ l)
      (sources-set_mem n (i + 1) ranges m d)

-- The offset into the destination does not wrap while the ranges stay below 2^64 bytes.
scopy_from-segments :
    (n i : ℕ) (ranges : ℕ → Range) (dest off : ℕ) (d : Disk)
    → off + total (sources n i ranges d) < 2 ^ 64
    → (scopy_from n i ranges dest off d)
      ≡ set_mem (copy_segments (dest + off) (sources n i ranges d) d.mem) d
unfolding scopy_from sources copy_segments total
scopy_from-segments zero i ranges dest off d h = refl
scopy_from-segments (suc n) i ranges dest off d h =
    let nbytes : ℕ = blocks_nbytes d (ranges i).nlb in
    let off' : add64 off nbytes ≡ off + nbytes = omega arith in
    let at : dest + (off + nbytes) ≡ dest + off + nbytes = omega arith in
    let m1 : Mem = memcpy (dest + off) (lba_addr d (ranges i).slba) nbytes d.mem in
    rw off' (
      scopy_from-segments n (i + 1) ranges dest (off + nbytes) (set_mem m1 d)
        (rw (sources-set_mem n (i + 1) ranges m1 d) (omega arith))
      ∙ rw (at, sources-set_mem n (i + 1) ranges m1 d))

-- A simple copy without metadata fills its destination with the source ranges, in order and
-- without a gap, where no source touches the destination and all are below 2^64 bytes together.
pub scopy-gathers :
    (c : Ctx) (pl : Payload) (d : Disk)
    → io_opc c.cmd.opcode ≡ scopy
    → has_meta pl ≡ false
    → let srcs = sources (scopy_nr c.cmd + 1) 0 (d.ranges pl.buf) d in
      let at = lba_addr d (slba c.cmd) in
      AllApart srcs at (total srcs)
      → total srcs < 2 ^ 64
      → let (err, c', d') = ramdisk_cmd_io c pl d in
        (err ≡ value 0) × (bytes d'.mem at (total srcs) ≡ gather d.mem srcs)
unfolding run_io
scopy-gathers c pl d is none apart small =
    let srcs : Segments = sources (scopy_nr c.cmd + 1) 0 (d.ranges pl.buf) d in
    let at : ℕ = lba_addr d (slba c.cmd) in
    let start : at + 0 ≡ at = omega arith in
    rw (cmd_io-run c pl d scopy is none) (
      refl,
      rw (scopy_from-segments (scopy_nr c.cmd + 1) 0 (d.ranges pl.buf) at 0 d (omega arith), start)
          (copy_segments-gather srcs at d.mem apart),
    )
