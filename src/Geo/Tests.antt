-- ===== src/Geo/Tests.antt =====
-- A namespace of 1000 blocks of 4096 bytes, in the second LBA format, and zones of 100 blocks.
use xnvme.Common.{ℕ, zero, suc, false}
use xnvme.Geo.{Geo, Idfy}

-- The zone size of the first LBA format and of the others.
abbrev idfy : ℕ → ℕ → Idfy
idfy first others = record {
  nsze = 1000;
  format = 1;
  extended = false;
  lbaf_ds = λ f. 12;
  lbaf_ms = λ f. 0;
  dps_pit = 0;
  dps_md_start = 0;
  lbafe_zsze = λ f. elim f [ zero ↦ first | suc g ↦ others ];
  elbaf_pif = λ f. 0;
  fs_nuse = 0;
  extended_lba_formats = false;
  mdts = 7;
}
