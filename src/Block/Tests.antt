-- ===== src/Block/Tests.antt =====
-- Reports of a device with three zones of 16 blocks, of which the first and the last are empty.
use xnvme.Common.{
  ℕ, ◌+◌, ◌-◌, ◌/◌, ◌≡◌, refl, ap, false, true, some, List, [], ◌∷◌, length, take, drop, min, arith,
  value,
}
use xnvme.Cmd.{Cmd, slba}
use xnvme.Queue.{zero_cmd}
use xnvme.Geo.{Geo, geo_zoned}
use xnvme.Block.{BlkZone, Zoned, Filled, is_zoned, zrasf, zrasf_to_state, zone_mgmt_recv}
use xnvme.Block.Scan.{matching, describe}
use xnvme.Block.Report.{IsAnswering, room_of, zone_mgmt_recv-whole, zone_mgmt_recv-overcounts}

abbrev geo : Geo
geo = record {
  type_ = geo_zoned;
  npugrp = 1;
  npunit = 1;
  nzone = 3;
  nsect = 16;
  nbytes = 512;
  nbytes_oob = 0;
  tbytes = 24576;
  ssw = 9;
  mdts_nbytes = 128;
  lba_nbytes = 512;
  lba_extended = false;
  pi_type = 0;
  pi_loc = 0;
  pi_format = 0;
}

abbrev zone : ℕ → ℕ → BlkZone
zone start cond = record {
  start = start;
  len = 16;
  wp = start;
  type_ = 2;
  cond = cond;
  capacity = 12;
}

abbrev zones : List BlkZone
zones = zone 0 1 ∷ zone 16 14 ∷ zone 32 1 ∷ []

abbrev device : Zoned ℕ
device = record {
  get_nr_zones = λ w. (some 3, w);
  report_alloc = λ w. (true, w);
  report_zone = λ sector nr w.
      (some (record { has_capacity = true; zones = take 64 (drop (sector / 16) zones) }), w + 1);
  act_on_range = λ action sector nr w. (true, w);
}

-- The empty zones, with and without the partial bit.
abbrev empty : Cmd
empty = record zero_cmd { opcode = 0x7a; cdw13 = 256 }

abbrev empty_partial : Cmd
empty_partial = record zero_cmd { opcode = 0x7a; cdw13 = 65792 }

device-IsAnswering : (c : Cmd) → slba c ≡ 0 → IsAnswering device geo c true 3 zones
device-IsAnswering c first = record {
  nr_zones = λ w. refl;
  memory = λ w. refl;
  few = omega arith;
  reports = λ k w le.
      ap (λ j. some (record { has_capacity = true; zones = take 64 (drop j zones) }))
        (omega (arith, first, le));
}

zone_mgmt_recv-whole_example :
    let zs = matching (zrasf_to_state (zrasf empty)) zones in
    let (err, filled, w') = zone_mgmt_recv device geo empty 192 5 in
    (err ≡ value 0)
    × (filled
        ≡ some (record {
          nzones = length zs;
          descrs = take (room_of 192) (describe (geo.ssw - 9) true zs);
        }))
unfolding is_zoned
zone_mgmt_recv-whole_example =
    zone_mgmt_recv-whole device geo empty true 3 zones (device-IsAnswering empty refl) 192 5
      (record { zoned_ = refl; header = refl; plain = refl }) refl refl

zone_mgmt_recv-overcounts_example :
    let m = length (matching (zrasf_to_state (zrasf empty_partial)) zones) in
    let (err, filled, w') = zone_mgmt_recv device geo empty_partial 128 5 in
    (f : Filled) × (err ≡ value 0)
    × (filled ≡ some f)
    × (f.nzones ≡ min m (room_of 128 + 1))
    × (length f.descrs ≡ min m (room_of 128))
    × (f.descrs
        ≡ take
            (room_of 128)
            (describe (geo.ssw - 9) true (matching (zrasf_to_state (zrasf empty_partial)) zones)))
unfolding is_zoned
zone_mgmt_recv-overcounts_example =
    zone_mgmt_recv-overcounts device geo empty_partial true 3 zones
      (device-IsAnswering empty_partial refl) 128 5
      (record { zoned_ = refl; header = refl; plain = refl }) refl refl (omega arith) (omega arith)
