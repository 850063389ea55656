-- ===== src/Pi/Layout.antt =====
-- Where the protection information of a block stands, and what the steps of lib/xnvme_pi.c read
-- and write of the buffers.
use xnvme.Common.{
  ℕ, ◌+◌, ◌^◌, ◌≤◌, ◌<◌, ◌≡◌, refl, ◌∙◌, ◌⊎◌, Bool, true, false, if◌then◌else◌, arith, value, fail,
  einval,
}
use xnvme.Mem.{Mem}
use xnvme.Mem.Copy.{Apart}
use xnvme.Pi.{
  Crc, PiCtx, PiType, Pif, pi_size, get_guard_interval, pi_ctx_init, set_guard, set_apptag,
  set_reftag, checks_guard, checks_apptag, checks_reftag, block_guard, pif_addr, ref_tag,
  generate_block, when,
}
use xnvme.Pi.Fields.{set_guard-else, set_apptag-else, set_reftag-else}

-- The buffer that holds the protection information, and the distance of two blocks in it.
abbrev pub buffer : PiCtx → ℕ → ℕ → ℕ
buffer ctx data_ md = if ctx.md_interleave then data_ else md

abbrev pub stride : PiCtx → ℕ
stride ctx = if ctx.md_interleave then ctx.block_size else ctx.md_size

-- The protection information fits behind the guarded bytes, and the tag in its field.
pub record IsWell (ctx : PiCtx) : Type 0 where
  pub fits : ctx.guard_interval + pi_size ctx.pi_format ≤ stride ctx
  pub tag : ctx.app_tag < 2 ^ 16

-- xnvme_pi_ctx_init() of sizes and a tag in the range of their types either fails with EINVAL
-- and leaves the context, or succeeds with a context whose protection information fits behind
-- the guarded bytes of a block and whose application tag fits its field.
pub pi_ctx_init-IsWell :
    (block_size md_size : ℕ) (md_interleave pi_loc : Bool) (t : PiType)
    (pi_flags init_ref_tag apptag_mask app_tag : ℕ) (f : Pif) (ctx : PiCtx)
    → block_size < 2 ^ 32
    → md_size < 2 ^ 32
    → app_tag < 2 ^ 16
    → let (err, ctx') =
        pi_ctx_init block_size md_size md_interleave pi_loc t pi_flags init_ref_tag apptag_mask
          app_tag f ctx in
      ((err ≡ value 0) × IsWell ctx') ⊎ ((err ≡ fail einval) × (ctx' ≡ ctx))
unfolding pi_ctx_init get_guard_interval
pi_ctx_init-IsWell block_size md_size md_interleave pi_loc t pi_flags init_ref_tag apptag_mask
      app_tag f ctx hb hm ht =
    ground arith

when-else : (b : Bool) (step : Mem → Mem) (a : ℕ) (m : Mem) → step m a ≡ m a → when b step m a ≡ m a
unfolding when
when-else true step a m h = h
when-else false step a m h = refl

module _ (crc : Crc) (ctx : PiCtx) where
  -- A step of xnvme_pi_generate() changes the protection information of its block alone.
  pub generate_block-else :
      (i data_ md a : ℕ) (m : Mem)
      → Apart a 1 (pif_addr crc ctx data_ md) (pi_size ctx.pi_format)
      → generate_block crc ctx i data_ md m a ≡ m a
  unfolding generate_block
  generate_block-else i data_ md a m h =
      let pif : ℕ = pif_addr crc ctx data_ md in
      let f : Pif = ctx.pi_format in
      let b : Mem → ℕ = block_guard crc ctx data_ md in
      let m1 : Mem = when (checks_guard ctx.pi_flags) (set_guard pif (b m) f) m in
      let m2 : Mem = when (checks_apptag ctx.pi_flags) (set_apptag pif ctx.app_tag f) m1 in
      when-else (checks_reftag ctx.pi_flags) (set_reftag pif (ref_tag crc ctx i) f) a m2
        (set_reftag-else pif _ a m2 f h)
      ∙ when-else (checks_apptag ctx.pi_flags) (set_apptag pif ctx.app_tag f) a m1
          (set_apptag-else pif _ a m1 f h)
      ∙ when-else (checks_guard ctx.pi_flags) (set_guard pif (b m) f) a m
          (set_guard-else pif _ a m f h)
