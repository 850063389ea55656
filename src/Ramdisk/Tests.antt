-- ===== src/Ramdisk/Tests.antt =====
-- The ramdisk on concrete commands: blocks of 512 bytes from address 4096 on.
use xnvme.Common.{
  ℕ, zero, suc, ◌^◌, ◌*◌, List, [], ◌∷◌, none, some, false, true, ◌+◌, ◌≡◌, refl, inr, arith, value,
}
use xnvme.Cmd.{Ctx, Payload, set_slba}
use xnvme.Mem.{bytes}
use xnvme.Geo.{Geo, ramdisk, csi_nvm, csi_fs, controller_geometry, derive_geo}
use xnvme.Geo.Identify.{Device, idfy_data, cleared, dev_idfy}
use xnvme.Ramdisk.Admin.{dev_get_size, strrchr, is_gb, atoi, atoi_digits, ramdisk_cmd_admin}
use xnvme.Ramdisk.Identify.{derive_geo-ramdisk}
use xnvme.Mem.Gather.{AllApart, total, gather}
use xnvme.Queue.{zero_cmd, fresh_ctx}
use xnvme.Ramdisk.{Disk, io_opc, ramdisk_cmd_io}
use xnvme.Ramdisk.Scopy.{sources, scopy-gathers}

-- Two vectors of 4 and 8 bytes; two source ranges of one block each, from block 8 on.
abbrev disk : Disk
disk = record {
  mem = λ a. a;
  ramdisk = 4096;
  ssw = 9;
  lba_nbytes = 512;
  vecs = λ p i. elim i [
    | zero ↦ record { iov_base = 16; iov_len = 4 }
    | suc j ↦ record { iov_base = 64; iov_len = 8 }
  ];
  ranges = λ p i. record { slba = 8 + i; nlb = 0 };
}

-- The command of an opcode on logical block `lba`.
abbrev command : ℕ → ℕ → Ctx
command opc lba = record (fresh_ctx 0) { cmd = set_slba lba (record zero_cmd { opcode = opc }) }

abbrev buffer : ℕ → Payload
buffer at = record { buf = at; nbytes = 512; vec_cnt = 2; meta = 0; meta_nbytes = 0 }

scopy-gathers_example :
    let (err, c', d') = ramdisk_cmd_io (command 0x19 3) (buffer 512) disk in
    (err ≡ value 0)
    × (bytes d'.mem 5632 (total (sources 1 0 (disk.ranges 512) disk))
        ≡ gather disk.mem (sources 1 0 (disk.ranges 512) disk))
unfolding io_opc AllApart sources total
scopy-gathers_example =
    scopy-gathers (command 0x19 3) (buffer 512) disk refl refl (inr (omega arith), omega arith)
      (omega arith)

-- A ramdisk of "1GB", of a device with nothing in it yet.
abbrev uri_1gb : List ℕ
uri_1gb = 49 ∷ 71 ∷ 66 ∷ []

abbrev no_data : Device
no_data = record {
  csi = csi_nvm;
  id_ctrlr = cleared;
  id_ns = cleared;
  idcss_ctrlr = cleared;
  idcss_ns = cleared;
}

derive_geo-ramdisk_example :
    let admin = ramdisk_cmd_admin (2 ^ 30) in
    let (err, dev') = dev_idfy admin 1 4096 8192 false true 0 no_data in
    (err ≡ value 0)
    × (dev'.csi ≡ csi_fs)
    × ((g : Geo) × (derive_geo err ramdisk dev'.csi (idfy_data dev') false none controller_geometry
          ≡ some (value 0, g))
        × (g.nbytes ≡ 512)
        × (g.ssw ≡ 9)
        × (g.nsect * 512 ≡ 2 ^ 30)
        × (g.tbytes ≡ 2 ^ 30)
        × (g.mdts_nbytes ≡ 2 ^ 20))
unfolding dev_get_size strrchr is_gb atoi atoi_digits
derive_geo-ramdisk_example =
    derive_geo-ramdisk uri_1gb 1 4096 8192 0 no_data controller_geometry (λ e. absurd (omega arith))
