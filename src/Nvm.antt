-- ===== src/Nvm.antt =====
-- lib/xnvme_nvm.c: the commands of the NVM command set, prepared in a context and passed on.
pub mod Roundtrip
pub mod Media
pub mod Fields
mod Tests
use xnvme.Common.{
  ℕ, ◌+◌, ◌-◌, ◌*◌, ◌/◌, ◌%◌, ◌^◌, Bool, true, false, ◌==◌, if◌then◌else◌, get_bits, put_bits,
  mul32, sub32, Ret,
}
use xnvme.Cmd.{Cmd, Ctx, Payload, set_slba, set_nlb, set_scopy_nr, update}
use xnvme.Queue.{Queue}
use xnvme.Queue.Pass.{SyncOps, AsyncOps, cmd_pass, cmd_pass_admin}
use xnvme.Geo.{Geo}

-- `common.opcode` and `common.nsid`
abbrev pub set_common : ℕ → ℕ → Cmd → Cmd
set_common opcode nsid c = record c { opcode = opcode; nsid = nsid }

-- A flag stored in a field of one bit.
abbrev pub flag : Bool → ℕ
flag false = 0
flag true = 1

abbrev pub with_cmd : (Cmd → Cmd) → Ctx → Ctx
with_cmd f c = record c { cmd = f c.cmd }

-- xnvme_prep_nvm(), and the fields that xnvme_nvm_read() and the like write.
unfoldable pub prep_nvm : ℕ → ℕ → ℕ → ℕ → Cmd → Cmd
prep_nvm opcode nsid slba nlb c = set_nlb nlb (set_slba slba (set_common opcode nsid c))

-- The fields of a format command, in dword 10.
unfoldable pub prep_format : ℕ → ℕ → ℕ → ℕ → ℕ → ℕ → ℕ → Cmd → Cmd
prep_format nsid lbafl lbafu mset ses pi pil c =
    let d0 = put_bits c.cdw10 0 4 lbafl in
    let d1 = put_bits d0 12 2 lbafu in
    let d2 = put_bits d1 4 1 mset in
    let d3 = put_bits d2 5 3 pi in
    let d4 = put_bits d3 8 1 pil in record (set_common 0x80 nsid c) { cdw10 = put_bits d4 9 3 ses }

-- The fields of a sanitize command, in dwords 10 and 11. The namespace is left as it is.
unfoldable pub prep_sanitize : ℕ → Bool → ℕ → ℕ → Bool → Bool → Cmd → Cmd
prep_sanitize sanact ause ovrpat owpass oipbp nodas c =
    let d0 = put_bits c.cdw10 0 3 sanact in
    let d1 = put_bits d0 3 1 (flag ause) in
    let d2 = put_bits d1 4 4 owpass in
    let d3 = put_bits d2 8 1 (flag oipbp) in
    let d4 = put_bits d3 9 1 (flag nodas) in
    record c { opcode = 0x84; cdw10 = put_bits d4 3 1 (flag ause); cdw11 = ovrpat }

-- The fields of a dataset management command, in dwords 10 and 11.
unfoldable pub prep_dsm : ℕ → ℕ → Bool → Bool → Bool → Cmd → Cmd
prep_dsm nsid nr ad idw idr c =
    let d0 = put_bits c.cdw11 2 1 (flag ad) in
    let d1 = put_bits d0 1 1 (flag idw) in
    record (set_common 0x09 nsid c) {
      cdw10 = put_bits c.cdw10 0 8 nr;
      cdw11 = put_bits d1 0 1 (flag idr);
    }

-- The fields of a simple copy.
unfoldable pub prep_scopy : ℕ → ℕ → ℕ → Cmd → Cmd
prep_scopy nsid sdlba nr c = set_scopy_nr nr (set_slba sdlba (set_common 0x19 nsid c))

-- The fields of I/O management receive and send, in dwords 10 and 11.
unfoldable pub prep_mgmt_recv : ℕ → ℕ → ℕ → ℕ → Cmd → Cmd
prep_mgmt_recv nsid mo mos dbuf_nbytes c = record (set_common 0x12 nsid c) {
  cdw10 = put_bits (put_bits c.cdw10 0 8 mo) 16 16 mos;
  cdw11 = sub32 (dbuf_nbytes / 4) 1;
}

unfoldable pub prep_mgmt_send : ℕ → ℕ → ℕ → Cmd → Cmd
prep_mgmt_send nsid mo mos c = record (set_common 0x1D nsid c) {
  cdw10 = put_bits (put_bits c.cdw10 0 8 mo) 16 16 mos;
}

-- The buffers of a transfer of `nlb` blocks, zero-based: a size is 0 where its buffer is NULL.
unfoldable pub rw_payload : Geo → ℕ → ℕ → ℕ → Payload
rw_payload geo nlb dbuf mbuf = record {
  buf = dbuf;
  nbytes = if dbuf == 0 then 0 else mul32 geo.lba_nbytes (nlb + 1);
  vec_cnt = 0;
  meta = mbuf;
  meta_nbytes = if mbuf == 0 then 0 else mul32 geo.nbytes_oob (nlb + 1);
}

-- One buffer, and no metadata.
abbrev pub data_payload : ℕ → ℕ → Payload
data_payload buf nbytes = record {
  buf = buf;
  nbytes = nbytes;
  vec_cnt = 0;
  meta = 0;
  meta_nbytes = 0;
}

-- The size of the ranges of a simple copy in the formats `fmt_zero` and `fmt_srclen`, bits 0 and 8
-- of `copy_fmt`.
unfoldable pub ranges_nbytes : ℕ → ℕ → ℕ
ranges_nbytes nr copy_fmt =
    let zero_ : ℕ = if get_bits copy_fmt 0 1 == 1 then (nr + 1) * 32 else 0 in
    if get_bits copy_fmt 8 1 == 1 then (nr + 1) * 16 else zero_

module _ {B W : Type 0} (async : AsyncOps B W) (sync : SyncOps W) where
  -- The context at `p` prepared by `f`, and its command passed on.
  unfoldable pub issue : ℕ → (Cmd → Cmd) → Payload → Queue B W → Ret × Queue B W
  issue p f pl q =
      cmd_pass async sync p pl (record q { ctxs = update q.ctxs p (with_cmd f (q.ctxs p)) })

  module _ (geo : Geo) where
    -- xnvme_nvm_read(), xnvme_nvm_write() and xnvme_nvm_compare()
    unfoldable pub nvm_read : ℕ → ℕ → ℕ → ℕ → ℕ → ℕ → Queue B W → Ret × Queue B W
    unfolding issue prep_nvm rw_payload
    nvm_read p nsid slba nlb dbuf mbuf =
        issue p (prep_nvm 0x02 nsid slba nlb) (rw_payload geo nlb dbuf mbuf)

    unfoldable pub nvm_write : ℕ → ℕ → ℕ → ℕ → ℕ → ℕ → Queue B W → Ret × Queue B W
    unfolding issue prep_nvm rw_payload
    nvm_write p nsid slba nlb dbuf mbuf =
        issue p (prep_nvm 0x01 nsid slba nlb) (rw_payload geo nlb dbuf mbuf)

    unfoldable pub nvm_compare : ℕ → ℕ → ℕ → ℕ → ℕ → ℕ → Queue B W → Ret × Queue B W
    unfolding issue prep_nvm rw_payload
    nvm_compare p nsid slba nlb dbuf mbuf =
        issue p (prep_nvm 0x05 nsid slba nlb) (rw_payload geo nlb dbuf mbuf)

  -- xnvme_nvm_write_uncorrectable() and xnvme_nvm_write_zeroes()
  unfoldable pub nvm_write_uncorrectable : ℕ → ℕ → ℕ → ℕ → Queue B W → Ret × Queue B W
  unfolding issue prep_nvm
  nvm_write_uncorrectable p nsid slba nlb = issue p (prep_nvm 0x04 nsid slba nlb) (data_payload 0 0)

  unfoldable pub nvm_write_zeroes : ℕ → ℕ → ℕ → ℕ → Queue B W → Ret × Queue B W
  unfolding issue prep_nvm
  nvm_write_zeroes p nsid slba nlb = issue p (prep_nvm 0x08 nsid slba nlb) (data_payload 0 0)

  -- xnvme_nvm_dsm(): a range is of 16 bytes.
  unfoldable pub nvm_dsm : ℕ → ℕ → ℕ → ℕ → Bool → Bool → Bool → Queue B W → Ret × Queue B W
  unfolding issue prep_dsm
  nvm_dsm p nsid dsm_range nr ad idw idr =
      issue p (prep_dsm nsid nr ad idw idr) (data_payload dsm_range (16 * (nr + 1)))

  -- xnvme_nvm_scopy()
  unfoldable pub nvm_scopy : ℕ → ℕ → ℕ → ℕ → ℕ → ℕ → Queue B W → Ret × Queue B W
  unfolding issue prep_scopy ranges_nbytes
  nvm_scopy p nsid sdlba ranges nr copy_fmt =
      issue p (prep_scopy nsid sdlba nr) (data_payload ranges (ranges_nbytes nr copy_fmt))

  -- xnvme_nvm_mgmt_recv() and xnvme_nvm_mgmt_send()
  unfoldable pub nvm_mgmt_recv : ℕ → ℕ → ℕ → ℕ → ℕ → ℕ → Queue B W → Ret × Queue B W
  unfolding issue prep_mgmt_recv
  nvm_mgmt_recv p nsid mo mos dbuf dbuf_nbytes =
      issue p (prep_mgmt_recv nsid mo mos dbuf_nbytes) (data_payload dbuf dbuf_nbytes)

  unfoldable pub nvm_mgmt_send : ℕ → ℕ → ℕ → ℕ → ℕ → ℕ → Queue B W → Ret × Queue B W
  unfolding issue prep_mgmt_send
  nvm_mgmt_send p nsid mo mos dbuf dbuf_nbytes =
      issue p (prep_mgmt_send nsid mo mos) (data_payload dbuf dbuf_nbytes)

module _ {W : Type 0} (cmd_admin : Ctx → Payload → W → Ret × Ctx × W) where
  -- xnvme_adm_format() and xnvme_nvm_sanitize()
  unfoldable pub adm_format : ℕ → ℕ → ℕ → ℕ → ℕ → ℕ → ℕ → Ctx → W → Ret × Ctx × W
  unfolding prep_format cmd_pass_admin
  adm_format nsid lbafl lbafu mset ses pi pil c =
      cmd_pass_admin cmd_admin (with_cmd (prep_format nsid lbafl lbafu mset ses pi pil) c)
        (data_payload 0 0)

  unfoldable pub nvm_sanitize : ℕ → Bool → ℕ → ℕ → Bool → Bool → Ctx → W → Ret × Ctx × W
  unfolding prep_sanitize cmd_pass_admin
  nvm_sanitize sanact ause ovrpat owpass oipbp nodas c =
      cmd_pass_admin cmd_admin (with_cmd (prep_sanitize sanact ause ovrpat owpass oipbp nodas) c)
        (data_payload 0 0)
