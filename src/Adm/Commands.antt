-- ===== src/Adm/Commands.antt =====
-- lib/xnvme_adm.c: the identify, feature and directive commands.
use xnvme.Common.{
  ℕ, ◌+◌, ◌-◌, ◌*◌, ◌/◌, ◌%◌, ◌^◌, ◌<◌, ◌≤◌, ◌≡◌, refl, false, ◌==◌, if◌then◌else◌, put_bits,
  get_bits, sub32, Option, none, some, Ret, value, fail, eio, is_err, arith,
}
use xnvme.Cmd.{Cmd, Ctx, Payload, cpl_status, is_async}
use xnvme.Queue.Pass.{cmd_pass_admin}
use xnvme.Nvm.{set_common, with_cmd, data_payload}

-- The fields of `struct xnvme_spec_cmd_idfy`.
abbrev set_cns : ℕ → Cmd → Cmd
set_cns cns c = record c { cdw10 = put_bits c.cdw10 0 8 cns }

abbrev set_csi : ℕ → Cmd → Cmd
set_csi csi c = record c { cdw11 = put_bits c.cdw11 24 8 csi }

unfoldable pub prep_idfy : ℕ → ℕ → ℕ → ℕ → ℕ → Cmd → Cmd
prep_idfy cns cntid nsid nvmsetid uuid c = record (set_common 0x06 nsid c) {
  cdw10 = put_bits (put_bits c.cdw10 0 8 cns) 16 16 cntid;
  cdw11 = put_bits c.cdw11 0 16 nvmsetid;
  cdw14 = put_bits c.cdw14 0 7 uuid;
}

-- xnvme_prep_adm_gfeat() and xnvme_prep_adm_sfeat()
unfoldable pub prep_gfeat : ℕ → ℕ → ℕ → Cmd → Cmd
prep_gfeat nsid fid sel c = record (set_common 0x0A nsid c) {
  cdw10 = put_bits (put_bits c.cdw10 0 8 fid) 8 3 sel;
}

unfoldable pub prep_sfeat : ℕ → ℕ → ℕ → ℕ → Cmd → Cmd
prep_sfeat nsid fid feat save c = record (set_common 0x09 nsid c) {
  cdw10 = put_bits (put_bits c.cdw10 0 8 fid) 31 1 save;
  cdw11 = feat;
}

-- The fields of the directive commands, in dwords 10 to 12.
unfoldable pub prep_dir_send : ℕ → ℕ → ℕ → ℕ → ℕ → Cmd → Cmd
prep_dir_send nsid doper dtype dspec val c = record (set_common 0x19 nsid c) {
  cdw11 = put_bits (put_bits (put_bits c.cdw11 0 8 doper) 8 8 dtype) 16 16 dspec;
  cdw12 = val;
}

unfoldable pub prep_dir_recv : ℕ → ℕ → ℕ → ℕ → ℕ → Cmd → Cmd
prep_dir_recv nsid doper dtype val dbuf_nbytes c = record (set_common 0x1A nsid c) {
  cdw10 = if dbuf_nbytes == 0 then 0 else sub32 (dbuf_nbytes / 4) 1;
  cdw11 = put_bits (put_bits c.cdw11 0 8 doper) 8 8 dtype;
  cdw12 = val;
}

module _ {W : Type 0} (cmd_admin : Ctx → Payload → W → Ret × Ctx × W) where
  -- The command prepared by `f` and passed on.
  abbrev admin : (Cmd → Cmd) → Payload → Ctx → W → Ret × Ctx × W
  admin f pl c = cmd_pass_admin cmd_admin (with_cmd f c) pl

  -- xnvme_adm_idfy(): a data structure is of 4096 bytes, and `nsid` is of 8 bits here.
  unfoldable pub adm_idfy : ℕ → ℕ → ℕ → ℕ → ℕ → ℕ → Ctx → W → Ret × Ctx × W
  unfolding prep_idfy cmd_pass_admin
  adm_idfy cns cntid nsid nvmsetid uuid dbuf =
      admin (prep_idfy cns cntid (nsid % 256) nvmsetid uuid) (data_payload dbuf 4096)

  -- xnvme_adm_idfy_ctrlr() and xnvme_adm_idfy_ctrlr_csi()
  unfoldable pub adm_idfy_ctrlr : ℕ → Ctx → W → Ret × Ctx × W
  unfolding cmd_pass_admin
  adm_idfy_ctrlr dbuf =
      admin (λ c. set_cns 0x01 (record c { opcode = 0x06 })) (data_payload dbuf 4096)

  unfoldable pub adm_idfy_ctrlr_csi : ℕ → ℕ → Ctx → W → Ret × Ctx × W
  unfolding cmd_pass_admin
  adm_idfy_ctrlr_csi csi dbuf =
      admin (λ c. set_csi csi (set_cns 0x06 (record c { opcode = 0x06 }))) (data_payload dbuf 4096)

  -- xnvme_adm_idfy_ns() and xnvme_adm_idfy_ns_csi(), with `dev_nsid` the namespace of the device.
  unfoldable pub adm_idfy_ns : ℕ → ℕ → ℕ → Ctx → W → Ret × Ctx × W
  unfolding cmd_pass_admin
  adm_idfy_ns dev_nsid nsid dbuf =
      admin
        (λ c. set_csi 0 (set_cns 0x00 (set_common 0x06 (if nsid == 0 then dev_nsid else nsid) c)))
        (data_payload dbuf 4096)

  unfoldable pub adm_idfy_ns_csi : ℕ → ℕ → ℕ → ℕ → Ctx → W → Ret × Ctx × W
  unfolding cmd_pass_admin
  adm_idfy_ns_csi dev_nsid nsid csi dbuf =
      admin
        (λ c. set_csi csi (set_cns 0x05 (set_common 0x06 (if nsid == 0 then dev_nsid else nsid) c)))
        (data_payload dbuf 4096)

  -- xnvme_adm_gfeat() and xnvme_adm_sfeat()
  unfoldable pub adm_gfeat : ℕ → ℕ → ℕ → ℕ → ℕ → Ctx → W → Ret × Ctx × W
  unfolding prep_gfeat cmd_pass_admin
  adm_gfeat nsid fid sel dbuf dbuf_nbytes =
      admin (prep_gfeat nsid fid sel) (data_payload dbuf dbuf_nbytes)

  unfoldable pub adm_sfeat : ℕ → ℕ → ℕ → ℕ → ℕ → ℕ → Ctx → W → Ret × Ctx × W
  unfolding prep_sfeat cmd_pass_admin
  adm_sfeat nsid fid feat save dbuf dbuf_nbytes =
      admin (prep_sfeat nsid fid feat save) (data_payload dbuf dbuf_nbytes)

  -- xnvme_adm_gfeat_nqueues(), whose pointers are not NULL: the numbers of submission and of
  -- completion queues, none where it returns an error.
  unfoldable pub adm_gfeat_nqueues : Ctx → W → Ret × Option (ℕ × ℕ) × Ctx × W
  unfolding adm_gfeat
  adm_gfeat_nqueues c w =
      let (err, c', w') = adm_gfeat 0 7 0 0 0 c w in
      if is_err err
      then (err, none, c', w')
      else if cpl_status c'
      then (fail eio, none, c', w')
      else (value 0, some (get_bits c'.cdw0 0 16 + 1, get_bits c'.cdw0 16 16 + 1), c', w')

  -- xnvme_adm_dir_send() and xnvme_adm_dir_recv()
  unfoldable pub adm_dir_send : ℕ → ℕ → ℕ → ℕ → ℕ → Ctx → W → Ret × Ctx × W
  unfolding prep_dir_send cmd_pass_admin
  adm_dir_send nsid doper dtype dspec val =
      admin (prep_dir_send nsid doper dtype dspec val) (data_payload 0 0)

  unfoldable pub adm_dir_recv : ℕ → ℕ → ℕ → ℕ → ℕ → ℕ → Ctx → W → Ret × Ctx × W
  unfolding prep_dir_recv cmd_pass_admin
  adm_dir_recv nsid doper dtype val dbuf dbuf_nbytes =
      admin (prep_dir_recv nsid doper dtype val dbuf_nbytes) (data_payload dbuf dbuf_nbytes)

-- A controller that grants `nsq` and `ncq` queues when it is asked for the current number of
-- queues, and leaves the rest of its answer open.
pub record IsGranting {W : Type 0} (cmd_admin : Ctx → Payload → W → Ret × Ctx × W) (nsq ncq : ℕ)
    : Type 0 where
  pub answers :
      (c : Ctx) (w : W)
      → c.cmd.opcode ≡ 0x0A
      → get_bits c.cmd.cdw10 0 8 ≡ 7
      → get_bits c.cmd.cdw10 8 3 ≡ 0
      → let (err, c', w') = cmd_admin c (data_payload 0 0) w in
        (err ≡ value 0) × (cpl_status c' ≡ false) × (c'.cdw0 ≡ (nsq - 1) + (ncq - 1) * 2 ^ 16)

-- On a controller that answers the request for the current number of queues with the zero-based
-- numbers of the submission and the completion queues it grants, from 1 to 2^16 of each,
-- xnvme_adm_gfeat_nqueues() with a context that is not asynchronous returns 0 and those two
-- numbers.
pub gfeat_nqueues-granted :
    {W : Type 0} (cmd_admin : Ctx → Payload → W → Ret × Ctx × W) (nsq ncq : ℕ) (c : Ctx) (w : W)
    → IsGranting cmd_admin nsq ncq
    → 0 < nsq
    → nsq ≤ 2 ^ 16
    → 0 < ncq
    → ncq ≤ 2 ^ 16
    → is_async c ≡ false
    → let (err, queues, c', w') = adm_gfeat_nqueues cmd_admin c w in
      (err ≡ value 0) × (queues ≡ some (nsq, ncq))
unfolding adm_gfeat_nqueues adm_gfeat prep_gfeat cmd_pass_admin
gfeat_nqueues-granted cmd_admin nsq ncq c w grant p1 l1 p2 l2 plain =
    let (ok, status, queues) =
      grant.answers (with_cmd (prep_gfeat 0 7 0) c) w refl (omega arith) (omega arith) in
    let sq : get_bits ((nsq - 1) + (ncq - 1) * 2 ^ 16) 0 16 + 1 ≡ nsq = omega arith in
    let cq : get_bits ((nsq - 1) + (ncq - 1) * 2 ^ 16) 16 16 + 1 ≡ ncq = omega arith in
    rw (plain, ok, is_err, status, queues, sq, cq) (refl, refl)
