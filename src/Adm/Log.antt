-- ===== src/Adm/Log.antt =====
-- What a controller reads of a Get Log Page command that lib/xnvme_adm.c prepares.
use xnvme.Common.{ℕ, ◌+◌, ◌/◌, ◌%◌, ◌^◌, ◌≤◌, ◌<◌, ◌≡◌, arith}
use xnvme.Cmd.{Ctx}
use xnvme.Adm.{log_lid, log_lsp, log_rae, log_numd, log_offset, prep_adm_log}

-- For identifiers that fit their fields, a buffer of four bytes or more below 2^32, and an
-- offset whose low half is below 2^28, the Get Log Page command that xnvme_prep_adm_log()
-- prepares asks for this log page, for all whole dwords of the buffer, from this offset on.
pub prep_adm_log-fields :
    (lid lsp lpo_nbytes nsid rae dbuf_nbytes : ℕ) (ctx : Ctx)
    → lid < 2 ^ 8
    → lsp < 2 ^ 7
    → rae < 2 ^ 1
    → 4 ≤ dbuf_nbytes
    → dbuf_nbytes < 2 ^ 32
    → lpo_nbytes < 2 ^ 64
    → lpo_nbytes % 2 ^ 32 < 2 ^ 28
    → let c = (prep_adm_log lid lsp lpo_nbytes nsid rae dbuf_nbytes ctx).cmd in
      (log_lid c ≡ lid)
      × (log_lsp c ≡ lsp)
      × (log_rae c ≡ rae)
      × (log_numd c + 1 ≡ dbuf_nbytes / 4)
      × (log_offset c ≡ lpo_nbytes)
unfolding prep_adm_log
prep_adm_log-fields lid lsp lpo_nbytes nsid rae dbuf_nbytes ctx h1 h2 h3 h4 h5 h6 h7 =
    (omega arith, omega arith, omega arith, omega arith, omega arith)

-- Of an offset whose low half is 2^28 or more xnvme_prep_adm_log() loses bits: the command asks
-- for a part of the log page before it.
pub prep_adm_log-offset_lost :
    (lid lsp lpo_nbytes nsid rae dbuf_nbytes : ℕ) (ctx : Ctx)
    → lpo_nbytes < 2 ^ 64
    → 2 ^ 28 ≤ lpo_nbytes % 2 ^ 32
    → log_offset (prep_adm_log lid lsp lpo_nbytes nsid rae dbuf_nbytes ctx).cmd < lpo_nbytes
unfolding prep_adm_log
prep_adm_log-offset_lost lid lsp lpo_nbytes nsid rae dbuf_nbytes ctx h k = omega arith

-- For a buffer of fewer than four bytes the command that xnvme_prep_adm_log() prepares asks for
-- 2^32 dwords.
pub prep_adm_log-short :
    (lid lsp lpo_nbytes nsid rae dbuf_nbytes : ℕ) (ctx : Ctx)
    → dbuf_nbytes < 4
    → log_numd (prep_adm_log lid lsp lpo_nbytes nsid rae dbuf_nbytes ctx).cmd + 1 ≡ 2 ^ 32
unfolding prep_adm_log
prep_adm_log-short lid lsp lpo_nbytes nsid rae dbuf_nbytes ctx h = omega arith
