-- ===== src/Adm.antt =====
-- lib/xnvme_adm.c: the Get Log Page command.
pub mod Log
pub mod Commands
mod Tests
use xnvme.Common.{
  ℕ, ◌+◌, ◌-◌, ◌*◌, ◌/◌, ◌%◌, ◌^◌, not, ◌==◌, if◌then◌else◌, put_bits, get_bits, sub32, Ret, fail,
  einval,
}
use xnvme.Cmd.{Cmd, Ctx, Payload}
use xnvme.Queue.Pass.{cmd_pass_admin}

-- The fields of `struct xnvme_spec_cmd_log` in its dwords.
abbrev pub log_lid : Cmd → ℕ
log_lid c = get_bits c.cdw10 0 8

abbrev pub log_lsp : Cmd → ℕ
log_lsp c = get_bits c.cdw10 8 7

abbrev pub log_rae : Cmd → ℕ
log_rae c = get_bits c.cdw10 15 1

-- The number of dwords, zero-based, of `numdl` and `numdu`.
abbrev pub log_numd : Cmd → ℕ
log_numd c = get_bits c.cdw10 16 16 + get_bits c.cdw11 0 16 * 2 ^ 16

-- The offset of `lpol` and `lpou`.
abbrev pub log_offset : Cmd → ℕ
log_offset c = c.cdw12 + c.cdw13 * 2 ^ 32

-- xnvme_prep_adm_log(): `& 0xfffffff` is a mask of 28 ones.
unfoldable pub prep_adm_log : ℕ → ℕ → ℕ → ℕ → ℕ → ℕ → Ctx → Ctx
prep_adm_log lid lsp lpo_nbytes nsid rae dbuf_nbytes ctx =
    let numdw : ℕ = sub32 (dbuf_nbytes / 4) 1 in
    record ctx {
      cmd = record ctx.cmd {
        opcode = 0x02;
        nsid = nsid;
        cdw10 =
            put_bits (put_bits (put_bits (put_bits ctx.cmd.cdw10 0 8 lid) 8 7 lsp) 15 1 rae) 16 16
              numdw;
        cdw11 = put_bits ctx.cmd.cdw11 0 16 (numdw / 2 ^ 16);
        cdw12 = lpo_nbytes % 2 ^ 28;
        cdw13 = lpo_nbytes / 2 ^ 32 % 2 ^ 32;
      };
    }

-- xnvme_adm_log(), which fills the command as xnvme_prep_adm_log() does. `clear dbuf n` is the
-- memset() of the buffer.
unfoldable pub adm_log :
    {W : Type 0}
    → (ℕ → ℕ → W → W)
    → (Ctx → Payload → W → Ret × Ctx × W)
    → ℕ
    → ℕ
    → ℕ
    → ℕ
    → ℕ
    → ℕ
    → ℕ
    → Ctx
    → W
    → Ret × Ctx × W
unfolding prep_adm_log cmd_pass_admin
adm_log clear cmd_admin lid lsp lpo_nbytes nsid rae dbuf dbuf_nbytes ctx w =
    if dbuf_nbytes == 0
    then (fail einval, ctx, w)
    else if not (lpo_nbytes % 4 == 0)
    then (fail einval, ctx, w)
    else cmd_pass_admin cmd_admin (prep_adm_log lid lsp lpo_nbytes nsid rae dbuf_nbytes ctx)
        (record { buf = dbuf; nbytes = dbuf_nbytes; vec_cnt = 0; meta = 0; meta_nbytes = 0 })
        (clear dbuf dbuf_nbytes w)
