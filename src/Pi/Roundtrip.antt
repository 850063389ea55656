-- ===== src/Pi/Roundtrip.antt =====
-- xnvme_pi_generate() and xnvme_pi_verify() over all blocks of a transfer.
use xnvme.Common.{
  ℕ, zero, suc, ◌+◌, ◌*◌, ◌≤◌, ◌<◌, ◌≡◌, refl, ◌∙◌, inl, inr, Bool, true, false, if◌then◌else◌,
  arith, Bool-cases, value,
}
use xnvme.Mem.{Mem}
use xnvme.Mem.Copy.{Apart}
use xnvme.Pi.{
  Crc, PiCtx, pif_addr, generate_block, next_md, generate_from, ignores, passes, verify_from,
}
use xnvme.Pi.Layout.{buffer, stride, IsWell, generate_block-else}
use xnvme.Pi.Verify.{SameBlock, passes-eq, passes-generate_block}

module _ (crc : Crc) (ctx : PiCtx) (w : IsWell ctx) where
  -- The next block is one stride on.
  buffer-next :
      (data_ md : ℕ)
      → buffer ctx (data_ + ctx.block_size) (next_md crc ctx md) ≡ buffer ctx data_ md + stride ctx
  buffer-next data_ md = elim (Bool-cases ctx.md_interleave) [ inl x ↦ rw x | inr x ↦ rw x ]

  -- xnvme_pi_generate() writes nothing outside the buffer of the protection information.
  pub generate_from-else :
      (n i data_ md a : ℕ) (m : Mem)
      → Apart a 1 (buffer ctx data_ md) (n * stride ctx)
      → generate_from crc ctx n i data_ md m a ≡ m a
  unfolding generate_from
  generate_from-else zero i data_ md a m h = refl
  generate_from-else (suc n) i data_ md a m h =
      let next : ℕ = buffer ctx (data_ + ctx.block_size) (next_md crc ctx md) in
      let at : next ≡ buffer ctx data_ md + stride ctx = buffer-next data_ md in
      generate_from-else n (i + 1) (data_ + ctx.block_size) (next_md crc ctx md) a
        (generate_block crc ctx i data_ md m)
        (elim h [ inl x ↦ inl (omega (arith, at)) | inr y ↦ inr (omega (arith, at)) ])
      ∙ generate_block-else crc ctx i data_ md a m
          (elim h [ inl x ↦ inl (omega arith) | inr y ↦ inr (omega (arith, w.fits)) ])

  -- A block keeps what its checks read while the blocks behind it are generated.
  later-SameBlock :
      (n i data_ md : ℕ) (m : Mem)
      → (ctx.md_interleave ≡ false → Apart data_ (suc n * ctx.block_size) md (suc n * ctx.md_size))
      → SameBlock crc ctx data_ md
          (generate_from crc ctx n i (data_ + ctx.block_size) (next_md crc ctx md) m)
          m
  later-SameBlock n i data_ md m apart =
      let at = buffer-next data_ md in
      record {
        info = λ a lo hi.
            generate_from-else n i (data_ + ctx.block_size) (next_md crc ctx md) a m
              (inl (omega (arith, at)));
        payload = λ x a lo hi.
            generate_from-else n i (data_ + ctx.block_size) (next_md crc ctx md) a m
              (beyond x a lo hi (apart x));
      }
    where
      beyond :
          ctx.md_interleave ≡ false
          → (a : ℕ) → data_ ≤ a
          → a < data_ + ctx.block_size
          → Apart data_ (suc n * ctx.block_size) md (suc n * ctx.md_size)
          → Apart a 1 (buffer ctx (data_ + ctx.block_size) (next_md crc ctx md)) (n * stride ctx)
      beyond x a lo hi h =
          let at : buffer ctx (data_ + ctx.block_size) (next_md crc ctx md) ≡ md + ctx.md_size =
            rw x in
          let size : stride ctx ≡ ctx.md_size = rw x in
          elim h [ inl y ↦ inl (omega (arith, at)) | inr y ↦ inr (rw (at, size) (omega arith)) ]

  -- What xnvme_pi_generate() has written for the blocks of a transfer passes xnvme_pi_verify()
  -- with the same context, whatever type, format and checks it has, for any checksum functions,
  -- where the protection information fits into the metadata of a block, the application tag
  -- into its field, and separate metadata does not overlap the blocks.
  pub verify-generate :
      (n i data_ md : ℕ) (m : Mem)
      → (ctx.md_interleave ≡ false → Apart data_ (n * ctx.block_size) md (n * ctx.md_size))
      → verify_from crc ctx n i data_ md (generate_from crc ctx n i data_ md m) ≡ value 0
  unfolding verify_from generate_from
  verify-generate zero i data_ md m apart = refl
  verify-generate (suc n) i data_ md m apart =
      let m1 : Mem = generate_block crc ctx i data_ md m in
      let last : Mem =
        generate_from crc ctx n (i + 1) (data_ + ctx.block_size) (next_md crc ctx md) m1 in
      let rest : verify_from crc ctx n (i + 1) (data_ + ctx.block_size) (next_md crc ctx md) last
          ≡ value 0 =
        verify-generate n (i + 1) (data_ + ctx.block_size) (next_md crc ctx md) m1 (later apart) in
      let ok : passes crc ctx i data_ md last ≡ true =
        passes-eq crc ctx i data_ md last m1 w (later-SameBlock n (i + 1) data_ md m1 apart)
        ∙ passes-generate_block crc ctx i data_ md m w (first apart) in
      rw (rest, ok) (ite_same (ignores crc ctx (pif_addr crc ctx data_ md) last))
    where
      later :
          (ctx.md_interleave ≡ false
            → Apart data_ (suc n * ctx.block_size) md (suc n * ctx.md_size))
          → ctx.md_interleave ≡ false
          → Apart
              (data_ + ctx.block_size)
              (n * ctx.block_size)
              (next_md crc ctx md)
              (n * ctx.md_size)
      later h x = rw x (elim (h x) [ inl y ↦ inl (omega arith) | inr y ↦ inr (omega arith) ])

      first :
          (ctx.md_interleave ≡ false
            → Apart data_ (suc n * ctx.block_size) md (suc n * ctx.md_size))
          → ctx.md_interleave ≡ false
          → Apart data_ ctx.block_size md ctx.md_size
      first h x = elim (h x) [ inl y ↦ inl (omega arith) | inr y ↦ inr (omega arith) ]

      ite_same : (b : Bool) → (if b then value 0 else value 0) ≡ value 0
      ite_same true = refl
      ite_same false = refl
