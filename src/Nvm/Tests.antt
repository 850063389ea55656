-- ===== src/Nvm/Tests.antt =====
-- NVM commands on a queue of two, over a ramdisk with blocks of 512 bytes from address 4096 on.
use xnvme.Common.{◌≡◌, refl, true, false, [], some, arith, value}
use xnvme.Mem.{bytes}
use xnvme.Queue.{Queue, fresh_ctx}
use xnvme.Queue.Drain.{drain}
use xnvme.Geo.{Geo, geo_conventional}
use xnvme.Emu.{Qpair, emu_init, emu_async, emu_poke}
use xnvme.Emu.Inv.{IsValid}
use xnvme.Emu.Init.{emu_init-IsValid}
use xnvme.Emu.Fifo.{noop}
use xnvme.Ramdisk.{Disk, ramdisk_sync}
use xnvme.Nvm.{nvm_read, nvm_write}
use xnvme.Nvm.Media.{nvm_read-nvm_write}

abbrev geo : Geo
geo = record {
  type_ = geo_conventional;
  npugrp = 1;
  npunit = 1;
  nzone = 1;
  nsect = 64;
  nbytes = 512;
  nbytes_oob = 0;
  tbytes = 32768;
  ssw = 9;
  mdts_nbytes = 4096;
  lba_nbytes = 512;
  lba_extended = false;
  pi_type = 0;
  pi_loc = 0;
  pi_format = 0;
}

abbrev blank : Queue Qpair Disk
blank = record {
  capacity = 2;
  outstanding = 0;
  pool = [];
  ctxs = fresh_ctx;
  be = record { rp = []; sq = []; capacity = 0 };
  world = record {
    mem = λ a. a;
    ramdisk = 4096;
    ssw = 9;
    lba_nbytes = 512;
    vecs = λ p i. record { iov_base = 0; iov_len = 0 };
    ranges = λ p i. record { slba = 0; nlb = 0 };
  };
}

abbrev two : Queue Qpair Disk
two = (emu_init true blank).1

two-IsValid : IsValid two
two-IsValid = emu_init-IsValid blank refl (omega arith)

-- Blocks 3 and 4 written from address 512, and read to address 1536.
nvm_read-nvm_write_example :
    let q1 = (nvm_write emu_async ramdisk_sync geo 0 1 3 1 512 0 two).1 in
    let q2 = (nvm_read emu_async ramdisk_sync geo 1 1 3 1 1536 0 q1).1 in
    (q' : Queue Qpair Disk) × (drain (emu_poke ramdisk_sync noop) 2 q2 ≡ some (value 2, q'))
    × (bytes q'.world.mem 1536 1024 ≡ bytes two.world.mem 512 1024)
    × (q'.outstanding ≡ 0)
unfolding emu_init
nvm_read-nvm_write_example =
    nvm_read-nvm_write 0 0 1 two two-IsValid refl (omega arith) (omega arith) refl refl geo 1 3 1
      512 1536 (omega arith) (omega arith)
