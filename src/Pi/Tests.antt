-- ===== src/Pi/Tests.antt =====
-- Protection information of type 1 with all checks, on blocks of 512 bytes and metadata of 8.
use xnvme.Common.{
  ℕ, zero, suc, ◌+◌, ◌%◌, ◌^◌, ◌<◌, ◌≡◌, refl, ◌↔◌, ◌⊎◌, inl, true, false, List, [], ◌∷◌, arith,
  value, fail, einval, errno_of,
}
use native.Mathlib.Nat.{mod-lt}
use xnvme.Mem.{Mem}
use xnvme.Mem.Endian.{load_be}
use xnvme.Pi.{
  Crc, PiCtx, type1, guard16, pi_ctx_init, pi_size, generate_from, verify_from, ignores, ignores_of,
  apptag_ignore, get_apptag,
}
use xnvme.Pi.Layout.{IsWell, pi_ctx_init-IsWell}
use xnvme.Pi.Roundtrip.{verify-generate}
use xnvme.Pi.Decides.{block_ignored, block_passes, verify-decides, verify-skips}

abbrev sum_bytes : ℕ → List ℕ → ℕ
sum_bytes seed [] = seed
sum_bytes seed (b ∷ bs) = sum_bytes (seed + b) bs

-- A checksum: the sum of the bytes.
abbrev sums : Crc
sums = record {
  crc16 = λ s bs. sum_bytes s bs % 2 ^ 16;
  crc64 = λ s bs. sum_bytes s bs % 2 ^ 64;
  crc16_lt = λ s bs. mod-lt (sum_bytes s bs) (omega arith);
  crc64_lt = λ s bs. mod-lt (sum_bytes s bs) (omega arith);
}

abbrev ctx : PiCtx
ctx = record {
  block_size = 512;
  md_size = 8;
  guard_interval = 0;
  pi_flags = 7;
  md_interleave = false;
  pi_type = type1;
  pi_format = guard16;
  init_ref_tag = 40;
  app_tag = 0x1234;
  apptag_mask = 0xFFFF;
}

ctx-IsWell : IsWell ctx
unfolding pi_size
ctx-IsWell = record { fits = omega arith; tag = omega arith }

pi_ctx_init-IsWell_example :
    let (err, ctx') = pi_ctx_init 512 8 false false type1 7 40 0xFFFF 0x1234 guard16 ctx in
    ((err ≡ value 0) × IsWell ctx') ⊎ ((err ≡ fail einval) × (ctx' ≡ ctx))
pi_ctx_init-IsWell_example =
    pi_ctx_init-IsWell 512 8 false false type1 7 40 0xFFFF 0x1234 guard16 ctx (omega arith)
      (omega arith) (omega arith)

verify-generate_example :
    verify_from sums ctx 3 0 0 4096 (generate_from sums ctx 3 0 0 4096 (λ a. a % 256)) ≡ value 0
verify-generate_example =
    verify-generate sums ctx ctx-IsWell 3 0 0 4096 (λ a. a % 256) (λ x. inl (omega arith))

-- Memory of zeros has no application tag to be ignored, memory of ones no other.
abbrev zeros : Mem
zeros a = 0

abbrev ones : Mem
ones a = 255

zeros-checked : (k : ℕ) → k < 2 → block_ignored sums ctx 0 4096 zeros k ≡ false
unfolding ignores ignores_of apptag_ignore get_apptag load_be
zeros-checked zero lt = refl
zeros-checked (suc zero) lt = refl
zeros-checked (suc (suc k)) lt = absurd (omega arith)

verify-decides_example :
    ((verify_from sums ctx 2 0 0 4096 zeros ≡ value 0)
      ↔ ((k : ℕ) → k < 2 → block_passes sums ctx 0 0 4096 zeros k ≡ true))
    × ((verify_from sums ctx 2 0 0 4096 zeros ≡ value 0)
        ⊎ (verify_from sums ctx 2 0 0 4096 zeros ≡ fail (errno_of 1)))
verify-decides_example = verify-decides sums ctx 2 0 0 4096 zeros zeros-checked

ones-ignored : block_ignored sums ctx 0 4096 ones 0 ≡ true
unfolding ignores ignores_of apptag_ignore get_apptag load_be
ones-ignored = refl

verify-skips_example : verify_from sums ctx 5 0 0 4096 ones ≡ value 0
verify-skips_example =
    verify-skips sums ctx 0 5 0 0 4096 ones (omega arith) (λ k lt. absurd (omega arith))
      ones-ignored
