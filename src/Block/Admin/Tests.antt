-- ===== src/Block/Admin/Tests.antt =====
-- A block device that is identified.
use xnvme.Common.{ℕ, ◌-◌, ◌*◌, ◌/◌, ◌^◌, ◌≡◌, refl, false, none, some, inr, arith, value}
use xnvme.Cmd.{Ctx}
use xnvme.Queue.{zero_cmd, fresh_ctx}
use xnvme.Geo.{Geo, Idfy, block_device, csi_nvm, derive_geo, controller_geometry}
use xnvme.Block.Admin.{Attrs, block_cmd_admin}
use xnvme.Block.Geometry.{derive_geo-block}

-- Data of which all bytes are 0.
abbrev idfy : Idfy
idfy = record {
  nsze = 0;
  format = 0;
  extended = false;
  lbaf_ds = λ f. 0;
  lbaf_ms = λ f. 0;
  dps_pit = 0;
  dps_md_start = 0;
  lbafe_zsze = λ f. 0;
  elbaf_pif = λ f. 0;
  fs_nuse = 0;
  extended_lba_formats = false;
  mdts = 0;
}

-- A device of 2^20 sectors, in blocks of 4096 bytes, with transfers of 128 KiB.
abbrev attrs : Attrs
attrs = record {
  size = inr 1048576;
  logical_block_size = inr 4096;
  max_hw_sectors_kb = inr 128;
  is_host_managed = false;
  nr_zones = some 0;
}

abbrev identify : (cns : ℕ) → Ctx
identify cns = record (fresh_ctx 0) { cmd = record zero_cmd { opcode = 0x06; cdw10 = cns } }

derive_geo-block_example :
    (id1 : Idfy) × (id2 : Idfy) × (g : Geo) × (block_cmd_admin attrs (identify 0) idfy
      ≡ some (value 0, identify 0, id1))
    × (block_cmd_admin attrs (identify 1) id1 ≡ some (value 0, identify 1, id2))
    × (derive_geo (value 0) block_device csi_nvm id2 false none controller_geometry
        ≡ some (value 0, g))
    × (2 ^ g.ssw ≡ 2 ^ 12)
    × (g.nbytes ≡ 2 ^ 12)
    × (g.tbytes ≡ 1048576 / 2 ^ (12 - 9) * 2 ^ 12)
    × (g.mdts_nbytes ≡ 4 * (2 ^ 7 * 1024))
derive_geo-block_example =
    derive_geo-block attrs idfy controller_geometry (identify 0) (identify 1) 1048576 12 7 refl refl
      refl refl refl refl refl (omega arith) (omega arith) (omega arith) (omega arith) (omega arith)
