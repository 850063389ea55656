-- ===== src/Ramdisk/Identify.antt =====
-- The ramdisk as lib/xnvme_dev.c identifies it, and the geometry derived from what it answers.
use xnvme.Common.{
  ℕ, ◌+◌, ◌*◌, ◌/◌, ◌%◌, ◌^◌, ◌<◌, ◌≡◌, ◌≢◌, refl, ==_ne, none, some, value, List, arith, false,
  true,
}
use xnvme.Cmd.{cpl_status}
use xnvme.Queue.Pass.{cmd_pass_admin}
use xnvme.Geo.{
  Geo, ramdisk, csi_fs, ilog2, ilog2_loop, lba_fields, conventional_geometry, finish_geometry,
  namespace_geometry, finish, derive_geo,
}
use xnvme.Geo.Identify.{
  Device, idfy_data, cleared, try_csi, fs_ctrlr, fs_ns, dev_idfy_csi, dev_idfy,
}
use xnvme.Adm.Commands.{adm_idfy_ctrlr, adm_idfy_ctrlr_csi, adm_idfy_ns, adm_idfy_ns_csi}
use xnvme.Znd.Fetch.{load_le}
use xnvme.Ramdisk.Admin.{
  store_le, fs_ns_fields, ns_fields, dev_get_size, idfy_ctrlr_iocs_fs, idfy_ns_iocs_fs, idfy_ns,
  idfy_ctrlr, idfy, ramdisk_cmd_admin,
}

digits8 :
    (v : ℕ)
    → v < 2 ^ 64
    → v % 256
        + 256
          * (v / 256 % 256
              + 256
                * (v / 256 / 256 % 256
                    + 256
                      * (v / 256 / 256 / 256 % 256
                          + 256
                            * (v / 256 / 256 / 256 / 256 % 256
                                + 256
                                  * (v / 256 / 256 / 256 / 256 / 256 % 256
                                      + 256
                                        * (v / 256 / 256 / 256 / 256 / 256 / 256 % 256
                                            + 256
                                              * (v / 256 / 256 / 256 / 256 / 256 / 256 / 256 % 256
                                                  + 256 * 0)))))))
      ≡ v
digits8 v lt = omega arith

-- The data that the ramdisk writes into cleared buffers.
ns-nsze : (nlb : ℕ) → nlb < 2 ^ 64 → load_le 8 0 (ns_fields nlb cleared) ≡ nlb
unfolding ns_fields store_le load_le
ns-nsze nlb lt = digits8 nlb lt

ns-else :
    (nlb : ℕ)
    → let ns = ns_fields nlb cleared in
      (ns 26 ≡ 0) × (ns 29 ≡ 0) × (load_le 2 128 ns ≡ 0) × (ns 130 ≡ 9)
unfolding ns_fields store_le load_le
ns-else nlb = (refl, refl, refl, refl)

fs_ns-fields : (size : ℕ) → size ≢ 0 → size < 2 ^ 64 → fs_ns (fs_ns_fields size cleared) ≡ true
unfolding fs_ns fs_ns_fields store_le load_le
fs_ns-fields size some_ lt = rw (digits8 size lt, ==_ne size 0 some_) refl

dev_get_size-whole : (uri : List ℕ) → (dev_get_size uri < 2 ^ 64) × (dev_get_size uri % 512 ≡ 0)
unfolding dev_get_size
dev_get_size-whole uri = (ground arith, ground arith)

module _ (size nsid p q errno : ℕ) (some_ : size ≢ 0) (lt : size < 2 ^ 64) (dev : Device) where
  -- What the ramdisk leaves of the data.
  abbrev ident : Device
  ident = record {
    csi = csi_fs;
    id_ctrlr = (idfy_ctrlr cleared).1;
    id_ns = ns_fields (size / 512) cleared;
    idcss_ctrlr = (idfy_ctrlr_iocs_fs cleared).1;
    idcss_ns = fs_ns_fields size cleared;
  }

  dev_idfy-ramdisk :
      dev_idfy (ramdisk_cmd_admin size) nsid p q false true errno dev ≡ (value 0, ident)
  unfolding dev_idfy dev_idfy_csi try_csi fs_ctrlr adm_idfy_ctrlr adm_idfy_ctrlr_csi adm_idfy_ns
      adm_idfy_ns_csi cmd_pass_admin ramdisk_cmd_admin idfy idfy_ns idfy_ctrlr idfy_ns_iocs_fs
      idfy_ctrlr_iocs_fs store_le cpl_status
  dev_idfy-ramdisk = rw (==_ne size 0 some_, fs_ns-fields size some_ lt) refl

-- For a ramdisk whose URI gives a size that is not 0, and buffers that are allocated:
-- _dev_idfy() succeeds and finds the file system command set, and of the data it has read
-- xnvme_dev_derive_geo() makes a geometry of blocks of 512 bytes with a shift of 9, which
-- covers the size in whole blocks, with transfers of 1 MiB at most.
pub derive_geo-ramdisk :
    (uri : List ℕ) (nsid p q errno : ℕ) (dev : Device) (geo : Geo)
    → dev_get_size uri ≢ 0
    → let admin = ramdisk_cmd_admin (dev_get_size uri) in
      let (err, dev') = dev_idfy admin nsid p q false true errno dev in
      (err ≡ value 0)
      × (dev'.csi ≡ csi_fs)
      × ((g : Geo) × (derive_geo err ramdisk dev'.csi (idfy_data dev') false none geo
            ≡ some (value 0, g))
          × (g.nbytes ≡ 512)
          × (g.ssw ≡ 9)
          × (g.nsect * 512 ≡ dev_get_size uri)
          × (g.tbytes ≡ dev_get_size uri)
          × (g.mdts_nbytes ≡ 2 ^ 20))
unfolding derive_geo namespace_geometry finish finish_geometry conventional_geometry lba_fields
    idfy_data ilog2 ilog2_loop idfy_ctrlr
derive_geo-ramdisk uri nsid p q errno dev geo some_ =
    let size : ℕ = dev_get_size uri in
    let (lt, whole) = dev_get_size-whole uri in
    let (format, dps, ms, ds) = ns-else (size / 512) in
    rw (dev_idfy-ramdisk size nsid p q errno some_ lt dev) (
      refl,
      refl,
      rw (ns-nsze (size / 512) (omega (arith, lt)), format, dps, ms, ds)
          (_, refl, refl, refl, omega arith, omega arith, refl),
    )
