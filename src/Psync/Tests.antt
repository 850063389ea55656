-- ===== src/Psync/Tests.antt =====
-- POSIX files on concrete commands: a file that is a medium, and calls that are cut short.
use xnvme.Common.{ℕ, ◌+◌, ◌%◌, ◌≡◌, ◌↔◌, ◌⊎◌, refl, true, none, some, value}
use xnvme.Cmd.{Ctx, Payload, set_slba}
use xnvme.Mem.{memcpy}
use xnvme.Queue.{zero_cmd, fresh_ctx}
use xnvme.Ramdisk.{Disk, io_opc, set_mem, ramdisk_cmd_io}
use xnvme.Psync.{Posix, psync_cmd_io, io_switch, leave, transferred}
use xnvme.Psync.Agrees.{IsFile, psync-ramdisk}
use xnvme.Psync.Errors.{call, psync_cmd_io-decides}

abbrev disk : Disk
disk = record {
  mem = λ a. a;
  ramdisk = 4096;
  ssw = 9;
  lba_nbytes = 512;
  vecs = λ p i. record { iov_base = 0; iov_len = 0 };
  ranges = λ p i. record { slba = 0; nlb = 0 };
}

abbrev medium : Posix Disk
medium = record {
  pread = λ buf n off d. (some n, 0, set_mem (memcpy buf (d.ramdisk + off) n d.mem) d);
  pwrite = λ buf n off d. (some n, 0, set_mem (memcpy (d.ramdisk + off) buf n d.mem) d);
  preadv = λ vecs n off d. (none, 22, d);
  pwritev = λ vecs n off d. (none, 22, d);
  fsync = λ d. (some 0, 0, d);
}

medium-IsFile : IsFile medium
medium-IsFile = record {
  writes = λ buf n off d. (0, refl);
  reads = λ buf n off d. (0, refl);
  syncs = λ d. (0, refl);
}

abbrev command : ℕ → Ctx
command opc = record (fresh_ctx 0) { cmd = set_slba 3 (record zero_cmd { opcode = opc }) }

abbrev buffer : Payload
buffer = record { buf = 512; nbytes = 512; vec_cnt = 0; meta = 0; meta_nbytes = 0 }

psync-ramdisk_example :
    let (err, c', d') = psync_cmd_io medium 9 (command 1) buffer disk in
    let (err2, c2, d2) = ramdisk_cmd_io (command 1) buffer disk in
    (err ≡ err2) × (err ≡ value 0) × (d' ≡ d2)
unfolding io_opc
psync-ramdisk_example = psync-ramdisk medium medium-IsFile 9 (command 1) buffer disk refl refl refl

-- Calls that transfer half of the bytes, and leave errno as it is, at 0.
abbrev halved : Posix ℕ
halved = record {
  pread = λ buf n off w. (some 256, 0, w);
  pwrite = λ buf n off w. (some 256, 0, w);
  preadv = λ vecs n off w. (some 256, 0, w);
  pwritev = λ vecs n off w. (some 256, 0, w);
  fsync = λ w. (some 0, 0, w);
}

psync_cmd_io-decides_example :
    let (res, errno, w') = call halved 9 true (command 1) buffer 0 in
    ((psync_cmd_io halved 9 (command 1) buffer 0).0 ≡ value 0)
    ↔ ((res ≡ some 512) ⊎ (errno % 256 ≡ 0))
unfolding io_opc
psync_cmd_io-decides_example = psync_cmd_io-decides halved 9 true (command 1) buffer 0 refl refl

-- The write of half of the bytes is reported as a success.
halved-success : (psync_cmd_io halved 9 (command 1) buffer 0).0 ≡ value 0
unfolding psync_cmd_io io_switch leave transferred io_opc
halved-success = refl
