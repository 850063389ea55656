-- ===== src/Lba.antt =====
-- lib/xnvme_lba.c: ranges of logical blocks.
pub mod Ranges
mod Tests
use xnvme.Common.{
  ℕ, ◌+◌, ◌/◌, ◌%◌, ◌^◌, Bool, true, false, not, ◌==◌, ltb, if◌then◌else◌, add64, sub64, mul64,
}
use xnvme.Geo.{Geo, GeoType, geo_unknown, geo_conventional, geo_zoned, geo_kv}

-- `struct xnvme_lba_range`: `naddrs` is a uint32_t.
pub record LbaRange : Type 0 where
  pub slba : ℕ
  pub elba : ℕ
  pub naddrs : ℕ
  pub nbytes : ℕ
  pub is_valid : Bool

abbrev pub empty_range : LbaRange
empty_range = record { slba = 0; elba = 0; naddrs = 0; nbytes = 0; is_valid = false }

-- The switch on the type of the geometry.
unfoldable pub has_lbas : GeoType → Bool
has_lbas geo_zoned = true
has_lbas geo_conventional = true
has_lbas geo_unknown = false
has_lbas geo_kv = false

-- xnvme_lba_range_from_slba_naddrs()
unfoldable pub from_slba_naddrs : Geo → ℕ → ℕ → LbaRange
unfolding has_lbas
from_slba_naddrs geo slba naddrs =
    if not (has_lbas geo.type_) then empty_range else if naddrs == 0 then empty_range else record {
      slba = slba;
      elba = sub64 (add64 slba naddrs) 1;
      naddrs = naddrs % 2 ^ 32;
      nbytes = mul64 naddrs geo.nbytes;
      is_valid = true;
    }

-- xnvme_lba_range_from_slba_elba()
unfoldable pub from_slba_elba : Geo → ℕ → ℕ → LbaRange
unfolding from_slba_naddrs
from_slba_elba geo slba elba =
    if ltb elba slba then empty_range else from_slba_naddrs geo slba (add64 (sub64 elba slba) 1)

-- xnvme_lba_range_from_offset_nbytes()
unfoldable pub from_offset_nbytes : Geo → ℕ → ℕ → LbaRange
unfolding from_slba_naddrs has_lbas
from_offset_nbytes geo offset nbytes =
    if not (has_lbas geo.type_)
    then empty_range
    else if not (offset % geo.nbytes == 0)
    then empty_range
    else if not (nbytes % geo.nbytes == 0)
    then empty_range
    else from_slba_naddrs geo (offset / geo.nbytes) (nbytes / geo.nbytes)
