-- ===== src/Pi/Verify.antt =====
-- The checks of xnvme_pi_verify() on a block that xnvme_pi_generate() has filled.
use xnvme.Common.{
  ℕ, ◌+◌, ◌%◌, ◌^◌, ◌≤◌, ◌<◌, ◌≡◌, refl, ap, ◌∙◌, inl, inr, Bool, true, false, ◌==◌, ==_refl,
  bit_and, if◌then◌else◌, arith, Bool-cases, List,
}
use native.Mathlib.Nat.{mod-eq_of_lt}
use xnvme.Mem.{Mem}
use xnvme.Mem.Copy.{Apart, bytes-eq}
use xnvme.Mem.Endian.{load_be, load_be-eq}
use xnvme.Pi.{
  Crc, PiCtx, PiType, Pif, guard16, guard32, guard64, type1, type2, type3, disable, unknown_type,
  is16, pi_size, set_guard, set_apptag, set_reftag, get_guard, get_apptag, get_reftag, reftag_match,
  checks_guard, checks_apptag, checks_reftag, generate_guard, block_guard, pif_addr, ref_tag,
  generate_block, reftag_passes, reftag_passes_of, passes, when, needs,
}
use xnvme.Pi.Fields.{
  SameOn, get_guard-set_guard, get_guard-set_apptag, get_guard-set_reftag, get_apptag-set_apptag,
  get_apptag-set_reftag, get_reftag-set_reftag,
}
use xnvme.Pi.Layout.{buffer, stride, IsWell, generate_block-else}

-- A field reads the same in two memories that agree on it.
module _ (pif : ℕ) (m m' : Mem) where
  field-eq :
      (k lo size : ℕ)
      → pif ≤ lo
      → lo + k ≤ pif + size
      → SameOn pif size m m'
      → load_be k lo m ≡ load_be k lo m'
  field-eq k lo size le hi h = load_be-eq k lo m m' (λ a x y. h a (omega arith) (omega arith))

  get_guard-eq : (f : Pif) → SameOn pif (pi_size f) m m' → get_guard pif f m ≡ get_guard pif f m'
  unfolding get_guard pi_size
  get_guard-eq guard16 h = field-eq 2 pif 8 (omega arith) (omega arith) h
  get_guard-eq guard32 h = field-eq 8 pif 16 (omega arith) (omega arith) h
  get_guard-eq guard64 h = field-eq 8 pif 16 (omega arith) (omega arith) h

  get_apptag-eq : (f : Pif) → SameOn pif (pi_size f) m m' → get_apptag pif f m ≡ get_apptag pif f m'
  unfolding get_apptag pi_size
  get_apptag-eq guard16 h = field-eq 2 (pif + 2) 8 (omega arith) (omega arith) h
  get_apptag-eq guard32 h = field-eq 2 (pif + 8) 16 (omega arith) (omega arith) h
  get_apptag-eq guard64 h = field-eq 2 (pif + 8) 16 (omega arith) (omega arith) h

  get_reftag-eq : (f : Pif) → SameOn pif (pi_size f) m m' → get_reftag pif f m ≡ get_reftag pif f m'
  unfolding get_reftag pi_size
  get_reftag-eq guard16 h = field-eq 4 (pif + 4) 8 (omega arith) (omega arith) h
  get_reftag-eq guard32 h = rw (
    field-eq 2 (pif + 10) 16 (omega arith) (omega arith) h,
    field-eq 4 (pif + 12) 16 (omega arith) (omega arith) h,
  )
  get_reftag-eq guard64 h = rw (
    field-eq 2 (pif + 10) 16 (omega arith) (omega arith) h,
    field-eq 4 (pif + 12) 16 (omega arith) (omega arith) h,
  )

module _ (crc : Crc) (ctx : PiCtx) where
  -- What a block's checks read of two memories is the same.
  pub record SameBlock (data_ md : ℕ) (m m' : Mem) : Type 0 where
    pub info : SameOn (buffer ctx data_ md) (stride ctx) m m'
    pub payload : ctx.md_interleave ≡ false → SameOn data_ ctx.block_size m m'

  block_guard-eq :
      (data_ md : ℕ) (m m' : Mem)
      → SameOn (buffer ctx data_ md) ctx.guard_interval m m'
      → (ctx.md_interleave ≡ false → SameOn data_ ctx.block_size m m')
      → block_guard crc ctx data_ md m ≡ block_guard crc ctx data_ md m'
  unfolding block_guard
  block_guard-eq data_ md m m' h k = elim (Bool-cases ctx.md_interleave) [
    | inl x ↦
        let h' : SameOn data_ ctx.guard_interval m m' = λ a lo hi. h a (rw x lo) (rw x hi) in
        rw x (
          ap (generate_guard crc ctx 0) (
            bytes-eq m m' data_ data_ ctx.guard_interval
              (λ i lt. h' (data_ + i) (omega arith) (omega arith))))
    | inr x ↦
        let h' : SameOn md ctx.guard_interval m m' = λ a lo hi. h a (rw x lo) (rw x hi) in
        rw x (
          rw (
            bytes-eq m m' data_ data_ ctx.block_size
                (λ i lt. k x (data_ + i) (omega arith) (omega arith)),
            bytes-eq m m' md md ctx.guard_interval
                (λ i lt. h' (md + i) (omega arith) (omega arith)),
          ))
  ]

  pif-eq :
      (data_ md : ℕ) (m m' : Mem)
      → IsWell ctx
      → SameOn (buffer ctx data_ md) (stride ctx) m m'
      → SameOn (pif_addr crc ctx data_ md) (pi_size ctx.pi_format) m m'
  pif-eq data_ md m m' w h = λ a lo hi. h a (omega arith) (omega (arith, w.fits))

  pub passes-eq :
      (i data_ md : ℕ) (m m' : Mem)
      → IsWell ctx
      → SameBlock data_ md m m'
      → passes crc ctx i data_ md m ≡ passes crc ctx i data_ md m'
  unfolding passes reftag_passes reftag_match
  passes-eq i data_ md m m' w s =
      let h : SameOn (pif_addr crc ctx data_ md) (pi_size ctx.pi_format) m m' =
        pif-eq data_ md m m' w s.info in
      rw (
        get_guard-eq _ m m' ctx.pi_format h,
        get_apptag-eq _ m m' ctx.pi_format h,
        get_reftag-eq _ m m' ctx.pi_format h,
        block_guard-eq data_ md m m' (λ a lo hi. s.info a lo (omega (arith, w.fits))) s.payload,
      )

when-get :
    (get : Mem → ℕ) (b : Bool) (step : Mem → Mem) (m : Mem)
    → get (step m) ≡ get m
    → get (when b step m) ≡ get m
unfolding when
when-get get true step m h = h
when-get get false step m h = refl

when-taken : (b : Bool) (step : Mem → Mem) (m : Mem) → b ≡ true → when b step m ≡ step m
unfolding when
when-taken b step m h = rw h

needs-true : (b check : Bool) → (b ≡ true → check ≡ true) → needs b check ≡ true
unfolding needs
needs-true true check h = h refl
needs-true false check h = refl

-- The fields of a block after the three steps of xnvme_pi_generate().
module _ (pif : ℕ) (f : Pif) (cg ca cr : Bool) (g t r : ℕ) (m : Mem) where
  abbrev guarded : Mem
  guarded = when cg (set_guard pif g f) m

  abbrev tagged : Mem
  tagged = when ca (set_apptag pif t f) guarded

  abbrev filled : Mem
  filled = when cr (set_reftag pif r f) tagged

  filled-guard : cg ≡ true → get_guard pif f filled ≡ g % (if is16 f then 2 ^ 16 else 2 ^ 64)
  filled-guard on =
      when-get (get_guard pif f) cr (set_reftag pif r f) tagged
        (get_guard-set_reftag pif r tagged f)
      ∙ when-get (get_guard pif f) ca (set_apptag pif t f) guarded
          (get_guard-set_apptag pif t guarded f)
      ∙ ap (get_guard pif f) (when-taken cg (set_guard pif g f) m on)
      ∙ get_guard-set_guard pif g m f

  filled-apptag : ca ≡ true → get_apptag pif f filled ≡ t % 2 ^ 16
  filled-apptag on =
      when-get (get_apptag pif f) cr (set_reftag pif r f) tagged
        (get_apptag-set_reftag pif r tagged f)
      ∙ ap (get_apptag pif f) (when-taken ca (set_apptag pif t f) guarded on)
      ∙ get_apptag-set_apptag pif t guarded f

  filled-reftag : cr ≡ true → get_reftag pif f filled ≡ r % (if is16 f then 2 ^ 32 else 2 ^ 48)
  filled-reftag on =
      ap (get_reftag pif f) (when-taken cr (set_reftag pif r f) tagged on)
      ∙ get_reftag-set_reftag pif r tagged f

reftag_match-true :
    (pif r : ℕ) (f : Pif) (m : Mem)
    → get_reftag pif f m ≡ r % (if is16 f then 2 ^ 32 else 2 ^ 48)
    → reftag_match pif r f m ≡ true
unfolding reftag_match
reftag_match-true pif r guard16 m h = rw h (==_refl _)
reftag_match-true pif r guard32 m h = rw h (==_refl _)
reftag_match-true pif r guard64 m h = rw h (==_refl _)

module _ (crc : Crc) (ctx : PiCtx) where
  generate_guard-lt :
      (seed : ℕ) (bs : List ℕ)
      → generate_guard crc ctx seed bs % (if is16 ctx.pi_format then 2 ^ 16 else 2 ^ 64)
        ≡ generate_guard crc ctx seed bs
  unfolding generate_guard
  generate_guard-lt seed bs = elim (Bool-cases (is16 ctx.pi_format)) [
    | inl x ↦ rw x (mod-eq_of_lt (crc.crc16_lt (seed % 2 ^ 16) bs))
    | inr x ↦ rw x (mod-eq_of_lt (crc.crc64_lt seed bs))
  ]

  block_guard-lt :
      (data_ md : ℕ) (m : Mem)
      → block_guard crc ctx data_ md m % (if is16 ctx.pi_format then 2 ^ 16 else 2 ^ 64)
        ≡ block_guard crc ctx data_ md m
  unfolding block_guard
  block_guard-lt data_ md m = elim (Bool-cases ctx.md_interleave) [
    | inl x ↦ rw x (generate_guard-lt 0 _)
    | inr x ↦ rw x (generate_guard-lt _ _)
  ]

  reftag_passes_of-true : (t : PiType) → reftag_passes_of t true ≡ true
  unfolding reftag_passes_of
  reftag_passes_of-true disable = refl
  reftag_passes_of-true type1 = refl
  reftag_passes_of-true type2 = refl
  reftag_passes_of-true type3 = refl
  reftag_passes_of-true unknown_type = refl

  reftag_passes-true :
      (i pif : ℕ) (m : Mem)
      → get_reftag pif ctx.pi_format m
        ≡ ref_tag crc ctx i % (if is16 ctx.pi_format then 2 ^ 32 else 2 ^ 48)
      → reftag_passes crc ctx i pif m ≡ true
  unfolding reftag_passes
  reftag_passes-true i pif m h =
      rw (reftag_match-true pif (ref_tag crc ctx i) ctx.pi_format m h)
        (reftag_passes_of-true ctx.pi_type)

  -- The bytes of a block are outside the information of its metadata.
  outside :
      (data_ md a : ℕ)
      → IsWell ctx
      → Apart data_ ctx.block_size md ctx.md_size
      → ctx.md_interleave ≡ false
      → data_ ≤ a
      → a < data_ + ctx.block_size
      → Apart a 1 (pif_addr crc ctx data_ md) (pi_size ctx.pi_format)
  outside data_ md a w apart x lo hi =
      let at : pif_addr crc ctx data_ md ≡ md + ctx.guard_interval = rw x in
      let size : stride ctx ≡ ctx.md_size = rw x in
      elim apart [ inl y ↦ inl (omega (arith, at)) | inr y ↦ inr (omega (arith, at, size, w.fits)) ]

  -- A block passes its checks right after its protection information was generated.
  pub passes-generate_block :
      (i data_ md : ℕ) (m : Mem)
      → IsWell ctx
      → (ctx.md_interleave ≡ false → Apart data_ ctx.block_size md ctx.md_size)
      → passes crc ctx i data_ md (generate_block crc ctx i data_ md m) ≡ true
  unfolding passes generate_block
  passes-generate_block i data_ md m w apart =
      let pif : ℕ = pif_addr crc ctx data_ md in
      let f : Pif = ctx.pi_format in
      let g : ℕ = block_guard crc ctx data_ md m in
      let r : ℕ = ref_tag crc ctx i in
      let cg : Bool = checks_guard ctx.pi_flags in
      let ca : Bool = checks_apptag ctx.pi_flags in
      let cr : Bool = checks_reftag ctx.pi_flags in
      let m' : Mem = filled pif f cg ca cr g ctx.app_tag r m in
      let same : block_guard crc ctx data_ md m' ≡ g =
        block_guard-eq crc ctx data_ md m' m
          (λ a lo hi. generate_block-else crc ctx i data_ md a m (inl (omega arith)))
          (λ x a lo hi.
            generate_block-else crc ctx i data_ md a m (outside data_ md a w (apart x) x lo hi)) in
      let cut : ctx.app_tag % 2 ^ 16 ≡ ctx.app_tag = omega (arith, w.tag) in
      rw (
        needs-true cg (get_guard pif f m' == block_guard crc ctx data_ md m') (λ on.
            rw (filled-guard pif f cg ca cr g ctx.app_tag r m on ∙ block_guard-lt data_ md m, same)
              (==_refl g)),
        needs-true ca
            (bit_and (get_apptag pif f m') ctx.apptag_mask == bit_and ctx.app_tag ctx.apptag_mask)
            (λ on. rw (filled-apptag pif f cg ca cr g ctx.app_tag r m on ∙ cut) (==_refl _)),
        needs-true cr (reftag_passes crc ctx i pif m')
            (λ on. reftag_passes-true i pif m' (filled-reftag pif f cg ca cr g ctx.app_tag r m on)),
      )
