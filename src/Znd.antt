-- ===== src/Znd.antt =====
-- lib/xnvme_znd.c: the commands of the zoned command set, and reports of zones.
pub mod Fetch
pub mod Chunks
pub mod Fields
pub mod Complete
pub mod Whole
pub mod Find
pub mod Single
mod Tests
use xnvme.Common.{
  ℕ, zero, suc, ◌+◌, ◌-◌, ◌*◌, ◌/◌, ◌%◌, ◌^◌, Bool, true, false, not, ◌&&◌, ◌||◌, ◌==◌, ltb, Option,
  none, some, if◌then◌else◌, put_bits, add64, mul64, sub32, Ret, value, fail, einval, enosys,
  enomem,
}
use xnvme.Cmd.{Cmd, Payload, set_slba, set_nlb}
use xnvme.Queue.{Queue}
use xnvme.Queue.Pass.{SyncOps, AsyncOps}
use xnvme.Geo.{Geo, GeoType, geo_zoned}
use xnvme.Nvm.{set_common, flag, data_payload, rw_payload, issue}

-- The fields of zone management send and receive, in dwords 10 to 13.
unfoldable pub prep_mgmt_send : ℕ → ℕ → Bool → ℕ → ℕ → Cmd → Cmd
prep_mgmt_send nsid zslba select_all zsa zsaso c =
    let d0 = put_bits c.cdw13 8 1 (flag select_all) in
    let d1 = put_bits d0 0 8 zsa in
    record (set_slba zslba (set_common 0x79 nsid c)) { cdw13 = put_bits d1 9 1 zsaso }

unfoldable pub prep_mgmt_recv : ℕ → ℕ → ℕ → ℕ → ℕ → ℕ → Cmd → Cmd
prep_mgmt_recv nsid slba zra zrasf partial dbuf_nbytes c =
    let d0 = put_bits c.cdw13 0 8 zra in
    let d1 = put_bits d0 8 8 zrasf in
    record (set_slba slba (set_common 0x7A nsid c)) {
      cdw12 = sub32 (dbuf_nbytes / 4) 1;
      cdw13 = put_bits d1 16 1 partial;
    }

unfoldable pub prep_append : ℕ → ℕ → ℕ → Cmd → Cmd
prep_append nsid zslba nlb c = set_nlb nlb (set_slba zslba (set_common 0x7D nsid c))

unfoldable pub prep_zrwa_flush : ℕ → ℕ → Cmd → Cmd
prep_zrwa_flush nsid lba c = record (set_slba lba (set_common 0x79 nsid c)) {
  cdw13 = put_bits c.cdw13 0 8 0x11;
}

module _ {B W : Type 0} (async : AsyncOps B W) (sync : SyncOps W) where
  -- xnvme_znd_mgmt_send(): `zdes` is the size of a descriptor extension in units of 64 bytes.
  unfoldable pub znd_mgmt_send : ℕ → ℕ → ℕ → ℕ → Bool → ℕ → ℕ → ℕ → Queue B W → Ret × Queue B W
  unfolding prep_mgmt_send
  znd_mgmt_send zdes p nsid zslba select_all zsa zsaso dbuf =
      issue async sync p (prep_mgmt_send nsid zslba select_all zsa zsaso)
        (data_payload dbuf (if dbuf == 0 then 0 else zdes * 64))

  -- xnvme_znd_mgmt_recv(): `dbuf_nbytes` is of 32 bits.
  unfoldable pub znd_mgmt_recv : ℕ → ℕ → ℕ → ℕ → ℕ → ℕ → ℕ → ℕ → Queue B W → Ret × Queue B W
  unfolding prep_mgmt_recv
  znd_mgmt_recv p nsid slba zra zrasf partial dbuf dbuf_nbytes =
      issue async sync p (prep_mgmt_recv nsid slba zra zrasf partial dbuf_nbytes)
        (data_payload dbuf dbuf_nbytes)

  -- xnvme_znd_append()
  unfoldable pub znd_append : Geo → ℕ → ℕ → ℕ → ℕ → ℕ → ℕ → Queue B W → Ret × Queue B W
  unfolding prep_append
  znd_append geo p nsid zslba nlb dbuf mbuf =
      issue async sync p (prep_append nsid zslba nlb) (rw_payload geo nlb dbuf mbuf)

  -- xnvme_znd_zrwa_flush()
  unfoldable pub znd_zrwa_flush : ℕ → ℕ → ℕ → Queue B W → Ret × Queue B W
  unfolding prep_zrwa_flush
  znd_zrwa_flush p nsid lba = issue async sync p (prep_zrwa_flush nsid lba) (data_payload 0 0)

-- `struct xnvme_znd_report`, with `storage` the address of its entries.
pub record Report : Type 0 where
  pub nzones : ℕ
  pub zd_nbytes : ℕ
  pub zdext_nbytes : ℕ
  pub zslba : ℕ
  pub zelba : ℕ
  pub nentries : ℕ
  pub extended : Bool
  pub zrent_nbytes : ℕ
  pub report_nbytes : ℕ
  pub entries_nbytes : ℕ
  pub storage : ℕ

-- `geo->type != XNVME_GEO_ZONED`
abbrev pub is_zoned : GeoType → Bool
is_zoned geo_zoned = true
is_zoned _ = false

-- The number of entries of a report, and the size of one.
abbrev pub entries_of : Geo → ℕ → ℕ
entries_of geo limit = if limit == 0 then geo.nzone else limit

abbrev pub entry_nbytes : ℕ → Bool → ℕ
entry_nbytes zdes extended = if extended then 64 + zdes * 64 else 64

-- The report that znd_report_init() fills in, with its entries at `at`.
unfoldable pub report_of : Geo → ℕ → ℕ → ℕ → ℕ → Bool → Report
report_of geo zdes at slba limit extended =
    let nentries : ℕ = entries_of geo limit in
    let zrent_nbytes : ℕ = entry_nbytes zdes extended in
    let entries_nbytes : ℕ = mul64 nentries zrent_nbytes in
    record {
      nzones = geo.nzone;
      zd_nbytes = 64;
      zdext_nbytes = zdes * 64;
      zslba = slba;
      zelba = add64 slba (mul64 (sub32 nentries 1) geo.nsect);
      nentries = nentries;
      extended = extended;
      zrent_nbytes = zrent_nbytes;
      report_nbytes = add64 64 entries_nbytes;
      entries_nbytes = entries_nbytes;
      storage = at;
    }

-- znd_report_init(): `alloc` is the address behind the header of the memory that
-- xnvme_buf_virt_alloc() gives, none where it fails. An error is that left in errno, with ENOMEM
-- for the allocation; the report is none where NULL is returned.
unfoldable pub report_init : Geo → ℕ → Option ℕ → ℕ → ℕ → Bool → Ret × Option Report
unfolding report_of
report_init geo zdes alloc slba limit extended =
    if not (is_zoned geo.type_)
    then (fail einval, none)
    else if extended && (zdes * 64 == 0)
    then (fail enosys, none)
    else if ltb geo.nzone (entries_of geo limit)
    then (fail einval, none)
    else elim alloc [
      | none ↦ (fail enomem, none)
      | some at ↦ (value 0, some (report_of geo zdes at slba limit extended))
    ]

-- xnvme_znd_report_get_descr(): the addresses of the descriptor of an entry and of its extension,
-- each none where it was not asked for.
unfoldable pub get_descr : Report → ℕ → Bool → Bool → Ret × Option ℕ × Option ℕ
get_descr r index descr ext =
    let at : ℕ = r.storage + index * r.zrent_nbytes in
    if not (ltb index r.nentries)
    then (fail einval, none, none)
    else if ext && not r.extended
    then (fail einval, none, none)
    else (value 0, if descr then some at else none, if ext then some (at + r.zd_nbytes) else none)
