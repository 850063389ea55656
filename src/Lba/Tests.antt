-- ===== src/Lba/Tests.antt =====
-- Ranges on a device with blocks of 512 bytes.
use xnvme.Common.{◌+◌, ◌*◌, ◌%◌, ◌<◌, ◌≡◌, ◌≢◌, refl, ◌⊎◌, true, arith}
use xnvme.Geo.{Geo, geo_conventional, controller_geometry}
use xnvme.Lba.{empty_range, has_lbas, from_slba_naddrs, from_offset_nbytes}
use xnvme.Lba.Ranges.{from_offset_nbytes-covers, from_slba_naddrs-truncates}

abbrev sectors : Geo
sectors = record controller_geometry { type_ = geo_conventional; nbytes = 512 }

from_offset_nbytes-covers_example :
    let rng = from_offset_nbytes sectors 4096 8192 in
    ((rng.is_valid ≡ true)
      × (rng.slba * 512 ≡ 4096)
      × ((rng.elba + 1) * 512 ≡ 4096 + 8192)
      × (rng.nbytes ≡ 8192)
      × (rng.naddrs * 512 ≡ 8192))
    ⊎ ((rng ≡ empty_range) × ((4096 % 512 ≢ 0) ⊎ (8192 % 512 ≢ 0)))
unfolding has_lbas
from_offset_nbytes-covers_example =
    from_offset_nbytes-covers sectors 4096 8192 refl (omega arith) (λ e. absurd (omega arith))
      (omega arith) (omega arith) (omega arith)

from_slba_naddrs-truncates_example :
    let rng = from_slba_naddrs sectors 8 4294967297 in
    (rng.is_valid ≡ true) × (rng.nbytes ≡ 4294967297 * 512) × (rng.naddrs < 4294967297)
unfolding has_lbas
from_slba_naddrs-truncates_example =
    from_slba_naddrs-truncates sectors 8 4294967297 refl (omega arith) (omega arith)
