-- ===== src/File/Tests.antt =====
-- File commands on a queue of two, over a ramdisk from address 4096 on.
use xnvme.Common.{◌≡◌, refl, true, [], some, arith, value}
use xnvme.Mem.{bytes}
use xnvme.Queue.{Queue, fresh_ctx}
use xnvme.Queue.Drain.{drain}
use xnvme.Emu.{Qpair, emu_init, emu_async, emu_poke}
use xnvme.Emu.Inv.{IsValid}
use xnvme.Emu.Init.{emu_init-IsValid}
use xnvme.Emu.Fifo.{noop}
use xnvme.Ramdisk.{Disk, ramdisk_sync}
use xnvme.File.{file_pread, file_pwrite, file_pread-file_pwrite}

abbrev blank : Queue Qpair Disk
blank = record {
  capacity = 2;
  outstanding = 0;
  pool = [];
  ctxs = fresh_ctx;
  be = record { rp = []; sq = []; capacity = 0 };
  world = record {
    mem = λ a. a;
    ramdisk = 4096;
    ssw = 0;
    lba_nbytes = 1;
    vecs = λ p i. record { iov_base = 0; iov_len = 0 };
    ranges = λ p i. record { slba = 0; nlb = 0 };
  };
}

abbrev two : Queue Qpair Disk
two = (emu_init true blank).1

two-IsValid : IsValid two
two-IsValid = emu_init-IsValid blank refl (omega arith)

-- 100 bytes written at offset 7 from address 512, and read to address 1024.
file_pread-file_pwrite_example :
    let q1 = (file_pwrite emu_async ramdisk_sync 0 1 512 100 7 two).1 in
    let q2 = (file_pread emu_async ramdisk_sync 1 1 1024 100 7 q1).1 in
    (q' : Queue Qpair Disk) × (drain (emu_poke ramdisk_sync noop) 2 q2 ≡ some (value 2, q'))
    × (bytes q'.world.mem 1024 100 ≡ bytes two.world.mem 512 100)
    × (q'.outstanding ≡ 0)
unfolding emu_init
file_pread-file_pwrite_example =
    file_pread-file_pwrite 0 0 1 two two-IsValid refl (omega arith) (omega arith) refl refl 1 512
      1024 100 7 (omega arith)
