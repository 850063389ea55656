-- ===== src/Pi.antt =====
-- lib/xnvme_pi.c: protection information in the metadata of logical blocks.
pub mod Fields
pub mod Layout
pub mod Verify
pub mod Roundtrip
pub mod Decides
mod Tests
use xnvme.Common.{
  ℕ, zero, suc, ◌+◌, ◌*◌, ◌%◌, ◌/◌, ◌^◌, ◌<◌, Bool, true, false, not, ◌&&◌, ◌||◌, ◌==◌, ltb,
  if◌then◌else◌, bit_and, get_bits, sub32, add64, List, Ret, value, fail, einval, errno_of,
}
use xnvme.Mem.{Mem, bytes}
use xnvme.Mem.Endian.{store_be, load_be}

-- `enum xnvme_pi_type`
pub data PiType : Type 0 where
  disable type1 type2 type3 unknown_type : PiType

-- `enum xnvme_spec_nvm_ns_pif`: guards of 16, 32 and 64 bits.
pub data Pif : Type 0 where
  guard16 guard32 guard64 : Pif

-- `struct xnvme_pi_ctx`
pub record PiCtx : Type 0 where
  pub block_size : ℕ
  pub md_size : ℕ
  pub guard_interval : ℕ
  pub pi_flags : ℕ
  pub md_interleave : Bool
  pub pi_type : PiType
  pub pi_format : Pif
  pub init_ref_tag : ℕ
  pub app_tag : ℕ
  pub apptag_mask : ℕ

-- The tests of `pi_flags` against XNVME_PI_FLAGS_REFTAG_CHECK, _APPTAG_CHECK and _GUARD_CHECK.
abbrev pub checks_reftag : ℕ → Bool
checks_reftag flags = get_bits flags 0 1 == 1

abbrev pub checks_apptag : ℕ → Bool
checks_apptag flags = get_bits flags 1 1 == 1

abbrev pub checks_guard : ℕ → Bool
checks_guard flags = get_bits flags 2 1 == 1

-- xnvme_pi_type_is_valid()
unfoldable pub pi_type_is_valid : PiType → ℕ → Bool
pi_type_is_valid disable flags = true
pi_type_is_valid type1 flags = true
pi_type_is_valid type2 flags = true
pi_type_is_valid type3 flags = not (checks_reftag flags)
pi_type_is_valid unknown_type flags = false

-- `pi_format == XNVME_SPEC_NVM_NS_16B_GUARD`
abbrev pub is16 : Pif → Bool
is16 guard16 = true
is16 guard32 = false
is16 guard64 = false

-- xnvme_pi_size()
unfoldable pub pi_size : Pif → ℕ
pi_size f = if is16 f then 8 else 16

-- xnvme_get_guard_interval()
unfoldable pub get_guard_interval : ℕ → ℕ → Bool → Bool → ℕ → ℕ
get_guard_interval block_size md_size pi_loc md_interleave dif_size =
    if not pi_loc
    then (if md_interleave then sub32 block_size dif_size else sub32 md_size dif_size)
    else if md_interleave
    then sub32 block_size md_size
    else 0

abbrev is_format : Pif → Bool
is_format guard16 = true
is_format guard32 = false
is_format guard64 = true

-- xnvme_pi_ctx_init(): the fields in the order of its parameters.
unfoldable pub pi_ctx_init :
    ℕ → ℕ → Bool → Bool → PiType → ℕ → ℕ → ℕ → ℕ → Pif → PiCtx → Ret × PiCtx
unfolding pi_type_is_valid pi_size get_guard_interval
pi_ctx_init block_size md_size md_interleave pi_loc pi_type pi_flags init_ref_tag apptag_mask
      app_tag pi_format ctx =
    if not (is_format pi_format)
    then (fail einval, ctx)
    else if ltb md_size (pi_size pi_format)
    then (fail einval, ctx)
    else if md_interleave && ltb block_size md_size
    then (fail einval, ctx)
    else if not md_interleave
        && (block_size == 0 || not (block_size % (if is16 pi_format then 512 else 4096) == 0))
    then (fail einval, ctx)
    else if not (pi_type_is_valid pi_type pi_flags)
    then (fail einval, ctx)
    else (
      value 0,
      record {
        block_size = block_size;
        md_size = md_size;
        guard_interval =
            get_guard_interval block_size md_size pi_loc md_interleave (pi_size pi_format);
        pi_flags = pi_flags;
        md_interleave = md_interleave;
        pi_type = pi_type;
        pi_format = pi_format;
        init_ref_tag = init_ref_tag;
        app_tag = app_tag;
        apptag_mask = apptag_mask;
      },
    )

-- The setters and getters of the fields of `struct xnvme_pif` at an address.
unfoldable pub set_guard : ℕ → ℕ → Pif → Mem → Mem
set_guard pif guard f m =
    if is16 f then store_be 2 pif (guard % 2 ^ 16) m else store_be 8 pif guard m

unfoldable pub get_guard : ℕ → Pif → Mem → ℕ
get_guard pif f m = if is16 f then load_be 2 pif m else load_be 8 pif m

unfoldable pub set_apptag : ℕ → ℕ → Pif → Mem → Mem
set_apptag pif app_tag f m =
    if is16 f then store_be 2 (pif + 2) app_tag m else store_be 2 (pif + 8) app_tag m

unfoldable pub get_apptag : ℕ → Pif → Mem → ℕ
get_apptag pif f m = if is16 f then load_be 2 (pif + 2) m else load_be 2 (pif + 8) m

unfoldable pub set_reftag : ℕ → ℕ → Pif → Mem → Mem
set_reftag pif ref_tag f m =
    if is16 f
    then store_be 4 (pif + 4) (ref_tag % 2 ^ 32) m
    else store_be 4 (pif + 12) (ref_tag % 2 ^ 32)
        (store_be 2 (pif + 10) (ref_tag / 2 ^ 32 % 2 ^ 16) m)

unfoldable pub get_reftag : ℕ → Pif → Mem → ℕ
get_reftag pif f m =
    if is16 f
    then load_be 4 (pif + 4) m
    else load_be 2 (pif + 10) m * 2 ^ 32 + load_be 4 (pif + 12) m

-- xnvme_pi_reftag_match(): the masks are of 32 and of 48 ones.
unfoldable pub reftag_match : ℕ → ℕ → Pif → Mem → Bool
unfolding get_reftag
reftag_match pif ref_tag f m =
    get_reftag pif f m == (if is16 f then ref_tag % 2 ^ 32 else ref_tag % 2 ^ 48)

-- xnvme_pi_apptag_ignore() and xnvme_pi_reftag_ignore()
unfoldable pub apptag_ignore : ℕ → Pif → Mem → Bool
unfolding get_apptag
apptag_ignore pif f m = get_apptag pif f m == 0xFFFF

unfoldable pub reftag_ignore : ℕ → Pif → Mem → Bool
unfolding reftag_match
reftag_ignore pif f m = reftag_match pif 0xFFFF_FFFF_FFFF_FFFF f m

-- xnvme_crc16_t10dif() and xnvme_crc64_nvme() on a seed and the bytes of a buffer. Their results
-- are of type uint16_t and uint64_t.
pub record Crc : Type 0 where
  pub crc16 : ℕ → List ℕ → ℕ
  pub crc64 : ℕ → List ℕ → ℕ
  pub crc16_lt : (seed : ℕ) (bs : List ℕ) → crc16 seed bs < 2 ^ 16
  pub crc64_lt : (seed : ℕ) (bs : List ℕ) → crc64 seed bs < 2 ^ 64

-- The first switch of xnvme_pi_verify(), given which of the two tags are to be ignored.
unfoldable pub ignores_of : PiType → Bool → Bool → Bool
ignores_of type1 app ref = app
ignores_of type2 app ref = app
ignores_of type3 app ref = app && ref
ignores_of _ app ref = false

-- The second switch, given whether the reference tag matches.
unfoldable pub reftag_passes_of : PiType → Bool → Bool
reftag_passes_of type1 match_ = match_
reftag_passes_of type2 match_ = match_
reftag_passes_of _ match_ = true

-- A check made where the flags ask for it.
unfoldable pub needs : Bool → Bool → Bool
needs b check = not b || check

-- A step taken where the flags ask for it.
unfoldable pub when : Bool → (Mem → Mem) → Mem → Mem
when b step m = if b then step m else m

module _ (crc : Crc) (ctx : PiCtx) where
  -- xnvme_pi_generate_guard()
  unfoldable pub generate_guard : ℕ → List ℕ → ℕ
  generate_guard seed bs =
      if is16 ctx.pi_format then crc.crc16 (seed % 2 ^ 16) bs else crc.crc64 seed bs

  -- The guard of the block at `data`, with its metadata at `md`.
  unfoldable pub block_guard : ℕ → ℕ → Mem → ℕ
  unfolding generate_guard
  block_guard data_ md m =
      if ctx.md_interleave
      then generate_guard 0 (bytes m data_ ctx.guard_interval)
      else generate_guard (generate_guard 0 (bytes m data_ ctx.block_size))
          (bytes m md ctx.guard_interval)

  -- The pointer `pif`
  abbrev pub pif_addr : ℕ → ℕ → ℕ
  pif_addr data_ md = (if ctx.md_interleave then data_ else md) + ctx.guard_interval

  -- `ref_tag` of block `i`
  unfoldable pub ref_tag : ℕ → ℕ
  ref_tag i = elim ctx.pi_type [ type3 ↦ ctx.init_ref_tag | _ ↦ add64 ctx.init_ref_tag i ]

  -- A round of the loop of xnvme_pi_generate()
  unfoldable pub generate_block : ℕ → ℕ → ℕ → Mem → Mem
  unfolding block_guard set_guard set_apptag set_reftag ref_tag when
  generate_block i data_ md m =
      let pif : ℕ = pif_addr data_ md in
      when (checks_reftag ctx.pi_flags) (set_reftag pif (ref_tag i) ctx.pi_format) (
        when (checks_apptag ctx.pi_flags) (set_apptag pif ctx.app_tag ctx.pi_format) (
          when (checks_guard ctx.pi_flags) (set_guard pif (block_guard data_ md m) ctx.pi_format)
            m))

  abbrev pub next_md : ℕ → ℕ
  next_md md = if ctx.md_interleave then md else md + ctx.md_size

  -- xnvme_pi_generate() from block `i` on, with `n` blocks left.
  unfoldable pub generate_from : ℕ → ℕ → ℕ → ℕ → Mem → Mem
  unfolding generate_block
  generate_from zero i data_ md m = m
  generate_from (suc n) i data_ md m =
      generate_from n (i + 1) (data_ + ctx.block_size) (next_md md) (generate_block i data_ md m)

  -- Whether xnvme_pi_verify() returns 0 at a block.
  unfoldable pub ignores : ℕ → Mem → Bool
  unfolding apptag_ignore reftag_ignore ignores_of
  ignores pif m =
      ignores_of ctx.pi_type (apptag_ignore pif ctx.pi_format m) (reftag_ignore pif ctx.pi_format m)

  -- Whether the reference tag passes the check of its type.
  unfoldable pub reftag_passes : ℕ → ℕ → Mem → Bool
  unfolding reftag_match ref_tag reftag_passes_of
  reftag_passes i pif m =
      reftag_passes_of ctx.pi_type (reftag_match pif (ref_tag i) ctx.pi_format m)

  -- Whether the block passes all the checks that the flags ask for.
  unfoldable pub passes : ℕ → ℕ → ℕ → Mem → Bool
  unfolding reftag_passes block_guard get_guard get_apptag needs
  passes i data_ md m =
      let pif : ℕ = pif_addr data_ md in
      needs (checks_guard ctx.pi_flags) (get_guard pif ctx.pi_format m == block_guard data_ md m)
      && (needs (checks_apptag ctx.pi_flags) (
            bit_and (get_apptag pif ctx.pi_format m) ctx.apptag_mask
            == bit_and ctx.app_tag ctx.apptag_mask)
          && needs (checks_reftag ctx.pi_flags) (reftag_passes i pif m))

  -- xnvme_pi_verify() from block `i` on, with `n` blocks left. It returns -1 on a mismatch.
  unfoldable pub verify_from : ℕ → ℕ → ℕ → ℕ → Mem → Ret
  unfolding ignores passes
  verify_from zero i data_ md m = value 0
  verify_from (suc n) i data_ md m =
      let rest : Ret = verify_from n (i + 1) (data_ + ctx.block_size) (next_md md) m in
      if ignores (pif_addr data_ md) m
      then value 0
      else if passes i data_ md m
      then rest
      else fail (errno_of 1)
