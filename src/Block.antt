-- ===== src/Block.antt =====
-- lib/xnvme_be_linux_block.c: zone management on a block device of Linux.
pub mod Admin
pub mod Geometry
pub mod Io
pub mod Report
pub mod Scan
mod Tests
use xnvme.Common.{
  ℕ, zero, suc, ◌+◌, ◌-◌, ◌*◌, ◌/◌, ◌%◌, ◌^◌, Bool, true, false, not, ◌&&◌, ◌||◌, ◌==◌, ltb, leb,
  if◌then◌else◌, get_bits, shl64, mul64, add64, Option, none, some, List, [], ◌∷◌, ◌++◌, Ret, value,
  fail, is_err, einval, enosys, eio, errno_of,
}
use xnvme.Cmd.{Cmd, slba}
use xnvme.Geo.{Geo, GeoType, geo_unknown, geo_conventional, geo_zoned, geo_kv}

-- `struct blk_zone`
pub record BlkZone : Type 0 where
  pub start : ℕ
  pub len : ℕ
  pub wp : ℕ
  pub type_ : ℕ
  pub cond : ℕ
  pub capacity : ℕ

-- What the kernel fills into `struct blk_zone_report`: whether the flag
-- BLK_ZONE_REP_CAPACITY is set, and the zones, as many as `nr_zones`.
pub record Answer : Type 0 where
  pub has_capacity : Bool
  pub zones : List BlkZone

-- The calls of ioctl() on the descriptor of the device, with calloc() of a report: BLKGETNRZONES and
-- BLKREPORTZONE, from a sector on for so many zones, which are none where they fail, and the actions
-- on a range of sectors, by the number of the action.
pub record Zoned (W : Type 0) : Type 0 where
  pub get_nr_zones : W → Option ℕ × W
  pub report_alloc : W → Bool × W
  pub report_zone : ℕ → ℕ → W → Option Answer × W
  pub act_on_range : ℕ → ℕ → ℕ → W → Bool × W

-- `struct xnvme_spec_znd_descr`
pub record ZoneDescr : Type 0 where
  pub zt : ℕ
  pub zs : ℕ
  pub zcap : ℕ
  pub zslba : ℕ
  pub wp : ℕ

-- The buffer of a report that was cleared: the number in its header, and the descriptors that were
-- written, which stand one after the other.
pub record Filled : Type 0 where
  pub nzones : ℕ
  pub descrs : List ZoneDescr

unfoldable pub is_zoned : GeoType → Bool
is_zoned geo_zoned = true
is_zoned _ = false

-- Fields of the commands
abbrev pub zsa : Cmd → ℕ
zsa c = get_bits c.cdw13 0 8

abbrev pub select_all : Cmd → Bool
select_all c = get_bits c.cdw13 8 1 == 1

abbrev pub zsaso : Cmd → Bool
zsaso c = get_bits c.cdw13 9 1 == 1

abbrev pub zra : Cmd → ℕ
zra c = get_bits c.cdw13 0 8

abbrev pub zrasf : Cmd → ℕ
zrasf c = get_bits c.cdw13 8 8

abbrev pub partial : Cmd → Bool
partial c = get_bits c.cdw13 16 1 == 1

-- _lzbd_ioctl_zblk_to_descr(): `shift` is `geo.ssw - LINUX_BLOCK_SSW`.
unfoldable pub zblk_to_descr : ℕ → Bool → BlkZone → ZoneDescr
zblk_to_descr shift has_capacity z = record {
  zslba = z.start / 2 ^ shift;
  wp = z.wp / 2 ^ shift;
  zcap = (if has_capacity then z.capacity else z.len) / 2 ^ shift;
  zt = 2;
  zs = if z.type_ == 2 then z.cond % 16 else 15;
}

-- _zrasf_to_state(): none is -1.
unfoldable pub zrasf_to_state : ℕ → Option ℕ
zrasf_to_state n =
    if n == 0
    then some 0
    else if n == 1
    then some 1
    else if n == 2
    then some 2
    else if n == 3
    then some 3
    else if n == 4
    then some 4
    else if n == 5
    then some 14
    else if n == 6
    then some 13
    else if n == 7
    then some 15
    else none

-- `(!zone_state) || (zone_state == cond)`
unfoldable pub keeps : Option ℕ → BlkZone → Bool
keeps none z = false
keeps (some state) z = state == 0 || state == z.cond

-- The inner loop of _lzbd_zone_mgmt_recv(): `room` is the number of descriptors that fit.
unfoldable pub scan_zones : Bool → ℕ → ℕ → Option ℕ → Bool → List BlkZone → Filled → Filled
unfolding keeps zblk_to_descr
scan_zones partial room shift state has_capacity [] f = f
scan_zones partial room shift state has_capacity (z ∷ zs) f =
    let counted : Filled = record f { nzones = f.nzones + 1 } in
    let written : Filled = record counted {
      descrs = f.descrs ++ zblk_to_descr shift has_capacity z ∷ [];
    } in
    elim (keeps state z) [
      | false ↦ scan_zones partial room shift state has_capacity zs f
      | true ↦ elim (leb room f.nzones) [
        | false ↦ scan_zones partial room shift state has_capacity zs written
        | true ↦ elim partial [
          | true ↦ counted
          | false ↦ scan_zones partial room shift state has_capacity zs counted
        ]
      ]
    ]

module _ {W : Type 0} (zoned : Zoned W) where
  -- _lzbd_zone_mgmt_send(): a failed call is -1.
  unfoldable pub zone_mgmt_send : Geo → Cmd → W → Ret × W
  unfolding is_zoned
  zone_mgmt_send geo c w =
      let sector : ℕ = shl64 (slba c) (geo.ssw - 9) in
      let nr : ℕ = mul64 geo.nsect geo.nbytes / 2 ^ 9 in
      let nr' : ℕ = if select_all c then mul64 nr geo.nzone else nr in
      let (ok, w') = zoned.act_on_range (zsa c) sector nr' w in
      if not (is_zoned geo.type_)
      then (fail einval, w)
      else if zsaso c
      then (fail enosys, w)
      else if zsa c == 0 || ltb 4 (zsa c)
      then (fail enosys, w)
      else ((if ok then value 0 else fail (errno_of 1)), w')

  -- The outer loop of _lzbd_zone_mgmt_recv(), with `n` rounds left and from zone `zidx` on.
  unfoldable pub scan_chunks : ℕ → ℕ → Geo → Cmd → ℕ → Filled → W → Ret × Filled × W
  unfolding scan_zones zrasf_to_state
  scan_chunks zero zidx geo c room f w = (value 0, f, w)
  scan_chunks (suc n) zidx geo c room f w =
      let zslba : ℕ = add64 (slba c) (mul64 zidx geo.nsect) in
      let (found, w') = zoned.report_zone (shl64 zslba (geo.ssw - 9)) 64 w in
      elim found [
        | none ↦ (fail eio, f, w')
        | some a ↦
            let f' : Filled =
              scan_zones (partial c) room (geo.ssw - 9) (zrasf_to_state (zrasf c)) a.has_capacity
                a.zones f in
            scan_chunks n (zidx + 64) geo c room f' w'
      ]

  -- _lzbd_zone_mgmt_recv() with a buffer of so many bytes: what it then holds, none where it was not
  -- touched. The loop takes 64 zones at a time.
  unfoldable pub zone_mgmt_recv : Geo → Cmd → ℕ → W → Ret × Option Filled × W
  unfolding scan_chunks is_zoned
  zone_mgmt_recv geo c dbuf_nbytes w0 =
      let (nr_zones, w1) = zoned.get_nr_zones w0 in
      let room : ℕ = (dbuf_nbytes - 64) / 64 % 2 ^ 32 in
      let cleared : Filled = record { nzones = 0; descrs = [] } in
      let (has_memory, w2) = zoned.report_alloc w1 in
      if not (is_zoned geo.type_)
      then (fail einval, none, w0)
      else if ltb dbuf_nbytes 64
      then (fail einval, none, w0)
      else if not (zra c == 0)
      then (fail enosys, none, w0)
      else elim nr_zones [
        | none ↦ (fail eio, none, w1)
        | some nzones_dev ↦
            let (err, f, w3) = scan_chunks ((nzones_dev + 63) / 64) 0 geo c room cleared w2 in
            if zrasf c == 0 && room == 0
            then (value 0, some (record { nzones = nzones_dev; descrs = [] }), w1)
            else if not has_memory
            then (fail eio, some cleared, w2)
            else (err, some f, w3)
      ]
