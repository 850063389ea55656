-- ===== src/Ramdisk.antt =====
-- lib/xnvme_be_ramdisk_sync.c: commands run on a region of memory that stands for the medium.
pub mod Media
pub mod Vectors
pub mod Scopy
pub mod Admin
pub mod Identify
mod Tests
use xnvme.Common.{
  ℕ, zero, suc, ◌+◌, Bool, true, false, not, ◌||◌, if◌then◌else◌, ◌==◌, mul32, shl64, add64,
  get_bits, Ret, value, fail, eio, enosys, enotsup,
}
use xnvme.Cmd.{Cmd, Ctx, Payload, slba, nlb, scopy_nr}
use xnvme.Mem.{Mem, memcpy, memset, same_bytes}
use xnvme.Queue.Pass.{SyncOps}

-- `struct iovec`
pub record Iovec : Type 0 where
  pub iov_base : ℕ
  pub iov_len : ℕ

-- The fields of `struct xnvme_spec_nvm_scopy_fmt_zero` that are read.
pub record Range : Type 0 where
  pub slba : ℕ
  pub nlb : ℕ

-- The memory, the medium in it from `ramdisk` on, the geometry of the device, and the arrays
-- behind the pointers that commands hand over: vectors, and source ranges. The arrays lie outside
-- the memory that commands write.
pub record Disk : Type 0 where
  pub mem : Mem
  pub ramdisk : ℕ
  pub ssw : ℕ
  pub lba_nbytes : ℕ
  pub vecs : ℕ → ℕ → Iovec
  pub ranges : ℕ → ℕ → Range

-- The opcodes that the switch statements name.
pub data IoOpc : Type 0 where
  write read write_zeroes fs_write fs_read scopy flush fs_flush dataset_management compare : IoOpc
  other : IoOpc

unfoldable pub io_opc : ℕ → IoOpc
io_opc n =
    if n == 0x00
    then flush
    else if n == 0x01
    then write
    else if n == 0x02
    then read
    else if n == 0x05
    then compare
    else if n == 0x08
    then write_zeroes
    else if n == 0x09
    then dataset_management
    else if n == 0x19
    then scopy
    else if n == 0xAC
    then fs_write
    else if n == 0xAD
    then fs_flush
    else if n == 0xDC
    then fs_read
    else other

-- `offset + (ctx->cmd.nvm.slba << ssw)`
abbrev pub lba_addr : Disk → ℕ → ℕ
lba_addr d lba = d.ramdisk + shl64 lba d.ssw

abbrev pub set_mem : Mem → Disk → Disk
set_mem m d = record d { mem = m }

-- The size in bytes of a zero-based number of blocks.
abbrev pub blocks_nbytes : Disk → ℕ → ℕ
blocks_nbytes d n = mul32 (n + 1) d.lba_nbytes

-- The loop of the simple copy from range `i` on, with `n` ranges left and `sdlba_offset`.
unfoldable pub scopy_from : ℕ → ℕ → (ℕ → Range) → ℕ → ℕ → Disk → Disk
scopy_from zero i ranges dest off d = d
scopy_from (suc n) i ranges dest off d =
    let nbytes : ℕ = blocks_nbytes d (ranges i).nlb in
    scopy_from n (i + 1) ranges dest (add64 off nbytes)
      (set_mem (memcpy (dest + off) (lba_addr d (ranges i).slba) nbytes d.mem) d)

-- `if (mbuf || mbuf_nbytes)`
abbrev pub has_meta : Payload → Bool
has_meta pl = not (pl.meta == 0) || not (pl.meta_nbytes == 0)

unfoldable pub run_io : IoOpc → Cmd → Payload → Disk → Ret × Disk
unfolding scopy_from
run_io write c pl d = (value 0, set_mem (memcpy (lba_addr d (slba c)) pl.buf pl.nbytes d.mem) d)
run_io read c pl d = (value 0, set_mem (memcpy pl.buf (lba_addr d (slba c)) pl.nbytes d.mem) d)
run_io write_zeroes c pl d =
    (value 0, set_mem (memset (lba_addr d (slba c)) 0 (blocks_nbytes d (nlb c)) d.mem) d)
run_io fs_write c pl d = (value 0, set_mem (memcpy (d.ramdisk + slba c) pl.buf pl.nbytes d.mem) d)
run_io fs_read c pl d = (value 0, set_mem (memcpy pl.buf (d.ramdisk + slba c) pl.nbytes d.mem) d)
run_io scopy c pl d =
    (value 0, scopy_from (scopy_nr c + 1) 0 (d.ranges pl.buf) (lba_addr d (slba c)) 0 d)
run_io flush c pl d = (value 0, d)
run_io fs_flush c pl d = (value 0, d)
run_io dataset_management c pl d = (value 0, d)
run_io compare c pl d =
    (if same_bytes d.mem (lba_addr d (slba c)) pl.buf pl.nbytes then value 0 else fail eio, d)
run_io other c pl d = (fail enosys, d)

-- xnvme_be_ramdisk_sync_cmd_io()
unfoldable pub ramdisk_cmd_io : Ctx → Payload → Disk → Ret × Ctx × Disk
unfolding run_io io_opc
ramdisk_cmd_io c pl d =
    if has_meta pl
    then (fail enotsup, c, d)
    else let (err, d') = run_io (io_opc c.cmd.opcode) c.cmd pl d in (err, c, d')

-- The loops over the vectors from `i` on, with `n` left: `offset` moves on by the vector's size.
unfoldable pub write_vecs : ℕ → ℕ → (ℕ → Iovec) → ℕ → Mem → Mem
write_vecs zero i dvec at m = m
write_vecs (suc n) i dvec at m =
    write_vecs n (i + 1) dvec (at + (dvec i).iov_len)
      (memcpy at (dvec i).iov_base (dvec i).iov_len m)

unfoldable pub read_vecs : ℕ → ℕ → (ℕ → Iovec) → ℕ → Mem → Mem
read_vecs zero i dvec at m = m
read_vecs (suc n) i dvec at m =
    read_vecs n (i + 1) dvec (at + (dvec i).iov_len)
      (memcpy (dvec i).iov_base at (dvec i).iov_len m)

unfoldable pub run_iov : IoOpc → Cmd → Payload → Disk → Ret × Disk
unfolding write_vecs read_vecs
run_iov write c pl d =
    (value 0, set_mem (write_vecs pl.vec_cnt 0 (d.vecs pl.buf) (lba_addr d (slba c)) d.mem) d)
run_iov read c pl d =
    (value 0, set_mem (read_vecs pl.vec_cnt 0 (d.vecs pl.buf) (lba_addr d (slba c)) d.mem) d)
run_iov fs_write c pl d =
    (value 0, set_mem (write_vecs pl.vec_cnt 0 (d.vecs pl.buf) (d.ramdisk + slba c) d.mem) d)
run_iov fs_read c pl d =
    (value 0, set_mem (read_vecs pl.vec_cnt 0 (d.vecs pl.buf) (d.ramdisk + slba c) d.mem) d)
run_iov flush c pl d = (value 0, d)
run_iov fs_flush c pl d = (value 0, d)
run_iov _ c pl d = (fail enosys, d)

-- xnvme_be_ramdisk_sync_cmd_iov()
unfoldable pub ramdisk_cmd_iov : Ctx → Payload → Disk → Ret × Ctx × Disk
unfolding run_iov io_opc
ramdisk_cmd_iov c pl d =
    if has_meta pl
    then (fail enotsup, c, d)
    else let (err, d') = run_iov (io_opc c.cmd.opcode) c.cmd pl d in (err, c, d')

abbrev pub ramdisk_sync : SyncOps Disk
ramdisk_sync = record { cmd_io = ramdisk_cmd_io; cmd_iov = ramdisk_cmd_iov }
