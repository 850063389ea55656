-- ===== src/Geo.antt =====
-- lib/xnvme_dev.c: the geometry of a device, derived from its identify data.
pub mod Derive
pub mod Identify
mod Tests
use xnvme.Common.{
  ℕ, zero, suc, ◌+◌, ◌-◌, ◌*◌, ◌/◌, ◌%◌, ◌^◌, Bool, true, false, not, ◌&&◌, ◌==◌, ltb,
  if◌then◌else◌, mul32, Ret, value, fail, einval, enosys, is_err, Option, none, some, sub32, add32,
  mul64, min,
}

-- `enum xnvme_geo_type`
pub data GeoType : Type 0 where
  geo_unknown geo_conventional geo_zoned geo_kv : GeoType

-- `struct xnvme_geo`
pub record Geo : Type 0 where
  pub type_ : GeoType
  pub npugrp : ℕ
  pub npunit : ℕ
  pub nzone : ℕ
  pub nsect : ℕ
  pub nbytes : ℕ
  pub nbytes_oob : ℕ
  pub tbytes : ℕ
  pub ssw : ℕ
  pub mdts_nbytes : ℕ
  pub lba_nbytes : ℕ
  pub lba_extended : Bool
  pub pi_type : ℕ
  pub pi_loc : ℕ
  pub pi_format : ℕ

-- The fields of the identify data that the geometry is derived from: of the namespace, of its
-- command set (zoned, with protection information, or file system) and of the controller.
pub record Idfy : Type 0 where
  pub nsze : ℕ
  pub format : ℕ
  pub extended : Bool
  pub lbaf_ds : ℕ → ℕ
  pub lbaf_ms : ℕ → ℕ
  pub dps_pit : ℕ
  pub dps_md_start : ℕ
  pub lbafe_zsze : ℕ → ℕ
  pub elbaf_pif : ℕ → ℕ
  pub fs_nuse : ℕ
  pub extended_lba_formats : Bool
  pub mdts : ℕ

-- `enum xnvme_dev_type` and the command set identifiers that the code tells apart.
pub data DevType : Type 0 where
  controller fs_file ramdisk block_device nvme_namespace other_type : DevType

pub data Csi : Type 0 where
  csi_nvm csi_kv csi_zoned csi_fs csi_other : Csi

-- The loop of XNVME_ILOG2() on fuel: `x` is shifted until nothing is left.
unfoldable pub ilog2_loop : ℕ → ℕ → ℕ → ℕ
ilog2_loop zero x val = val
ilog2_loop (suc fuel) x val =
    let rest : ℕ = ilog2_loop fuel (x / 2) (val + 1) in if x / 2 == 0 then val else rest

-- XNVME_ILOG2(): 64 rounds are enough for a uint64_t.
unfoldable pub ilog2 : ℕ → ℕ
unfolding ilog2_loop
ilog2 x = ilog2_loop 64 x 0

-- `2 << (lbaf->ds - 1)`, for a `ds` that is not 0.
abbrev pub ds_nbytes : ℕ → ℕ
ds_nbytes ds = (2 * 2 ^ (ds - 1)) % 2 ^ 32

-- The fields that _zoned_geometry() and _conventional_geometry() both set from the LBA format.
unfoldable pub lba_fields : Idfy → Geo → Geo
lba_fields id geo =
    let nbytes : ℕ = ds_nbytes (id.lbaf_ds id.format) in
    let oob : ℕ = id.lbaf_ms id.format in
    let extended : Bool = id.extended && not (oob == 0) in
    record geo {
      nbytes = nbytes;
      nbytes_oob = oob;
      lba_extended = extended;
      lba_nbytes = if extended then add32 nbytes oob else nbytes;
    }

-- _zoned_geometry(): none is the fault of a division by zero.
unfoldable pub zoned_geometry : Idfy → Geo → Option (Ret × Geo)
unfolding lba_fields
zoned_geometry id geo =
    if id.lbafe_zsze 0 == 0
    then some (fail einval, geo)
    else if id.lbafe_zsze id.format == 0
    then none
    else some (
      value 0,
      lba_fields id (record geo {
        type_ = geo_zoned;
        npugrp = 1;
        npunit = 1;
        nzone = id.nsze / id.lbafe_zsze id.format % 2 ^ 32;
        nsect = id.lbafe_zsze id.format;
      }),
    )

-- _conventional_geometry()
unfoldable pub conventional_geometry : Idfy → Geo → Ret × Geo
unfolding lba_fields
conventional_geometry id geo =
    let g : Geo = lba_fields id (record geo {
      type_ = geo_conventional;
      npugrp = 1;
      npunit = 1;
      nzone = 1;
      nsect = id.nsze;
    }) in
    let protected : Bool = not (id.dps_pit == 0) in
    (
      value 0,
      record g {
        pi_type = id.dps_pit;
        pi_loc = if protected then id.dps_md_start else g.pi_loc;
        pi_format =
            if id.extended_lba_formats && protected
            then id.elbaf_pif id.format
            else if protected
            then 0
            else g.pi_format;
      },
    )

-- _fs_geometry()
unfoldable pub fs_geometry : Idfy → Geo → Ret × Geo
unfolding ilog2
fs_geometry id geo = (
  value 0,
  record geo {
    type_ = geo_conventional;
    npugrp = 1;
    npunit = 1;
    nzone = 1;
    nsect = 1;
    nbytes = 1;
    nbytes_oob = 0;
    lba_nbytes = 512;
    lba_extended = false;
    tbytes = id.fs_nuse;
    mdts_nbytes = 2 ^ 20;
    ssw = ilog2 512;
  },
)

-- _controller_geometry()
abbrev pub controller_geometry : Geo
controller_geometry = record {
  type_ = geo_unknown;
  npugrp = 0;
  npunit = 0;
  nzone = 0;
  nsect = 0;
  nbytes = 0;
  nbytes_oob = 0;
  tbytes = 0;
  ssw = 0;
  mdts_nbytes = 0;
  lba_nbytes = 0;
  lba_extended = false;
  pi_type = 0;
  pi_loc = 0;
  pi_format = 0;
}

-- The part of xnvme_dev_derive_geo() behind its switch. `attrs` are the maximum of segments and
-- the size of a physical block that Linux reports, where the synchronous interface is "nvme"; a
-- shift by `mdts + 12` stays in range.
unfoldable pub finish_geometry : Idfy → Bool → Option (ℕ × ℕ) → Geo → Geo
unfolding ilog2
finish_geometry id fabrics attrs geo =
    let mdts : ℕ = if id.mdts == 0 then 2 ^ 20 else 2 ^ (id.mdts + 12) % 2 ^ 32 in
    let fabric_mdts : ℕ = if ltb (16 * 1024) mdts && fabrics then 16 * 1024 else mdts in
    record geo {
      tbytes = mul64 (mul64 (mul64 (mul64 geo.npugrp geo.npunit) geo.nzone) geo.nsect) geo.nbytes;
      ssw = ilog2 geo.nbytes;
      mdts_nbytes = elim attrs [
        | none ↦ fabric_mdts
        | some (max_seg, phys_blk) ↦ min fabric_mdts (mul32 (sub32 max_seg 1) phys_blk)
      ];
    }

-- The switch of xnvme_dev_derive_geo() for a namespace, by its command set.
unfoldable pub namespace_geometry : Csi → Idfy → Geo → Option (Ret × Geo)
unfolding zoned_geometry conventional_geometry
namespace_geometry csi_fs id geo = some (conventional_geometry id geo)
namespace_geometry csi_zoned id geo = zoned_geometry id geo
namespace_geometry csi_nvm id geo = some (conventional_geometry id geo)
namespace_geometry csi_kv id geo = some (value 0, record geo { type_ = geo_kv })
namespace_geometry csi_other id geo = some (fail enosys, geo)

unfoldable pub finish : Idfy → Bool → Option (ℕ × ℕ) → Option (Ret × Geo) → Option (Ret × Geo)
unfolding finish_geometry
finish id fabrics attrs none = none
finish id fabrics attrs (some (fail e, geo)) = some (fail e, geo)
finish id fabrics attrs (some (value n, geo)) = some (value 0, finish_geometry id fabrics attrs geo)

-- xnvme_dev_derive_geo() with the result of _dev_idfy(), and the data it has read.
unfoldable pub derive_geo :
    Ret → DevType → Csi → Idfy → Bool → Option (ℕ × ℕ) → Geo → Option (Ret × Geo)
unfolding namespace_geometry fs_geometry finish
derive_geo idfy_err dtype csi id fabrics attrs geo =
    if is_err idfy_err then some (idfy_err, geo) else elim dtype [
      | controller ↦ some (value 0, controller_geometry)
      | fs_file ↦ some (fs_geometry id geo)
      | ramdisk ↦ finish id fabrics attrs (namespace_geometry csi id geo)
      | block_device ↦ finish id fabrics attrs (namespace_geometry csi id geo)
      | nvme_namespace ↦ finish id fabrics attrs (namespace_geometry csi id geo)
      | other_type ↦ some (fail enosys, geo)
    ]
