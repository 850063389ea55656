-- ===== src/Pi/Decides.antt =====
-- The results of xnvme_pi_verify() and the blocks of a transfer.
use xnvme.Common.{
  ℕ, zero, suc, ◌+◌, ◌*◌, ◌<◌, ◌≡◌, refl, sym, ap, ◌∙◌, ◌↔◌, ◌⊎◌, inl, inr, Bool, true, false,
  if◌then◌else◌, arith, Bool-cases, value, fail, errno_of,
}
use xnvme.Mem.{Mem}
use xnvme.Pi.{Crc, PiCtx, pif_addr, next_md, ignores, passes, verify_from}

module _ (crc : Crc) (ctx : PiCtx) where
  -- The metadata of block `k`.
  abbrev pub md_at : ℕ → ℕ → ℕ
  md_at md k = if ctx.md_interleave then md else md + k * ctx.md_size

  -- Block `k` of the blocks from `data_` on.
  abbrev pub block_ignored : ℕ → ℕ → Mem → ℕ → Bool
  block_ignored data_ md m k =
      ignores crc ctx (pif_addr crc ctx (data_ + k * ctx.block_size) (md_at md k)) m

  abbrev pub block_passes : ℕ → ℕ → ℕ → Mem → ℕ → Bool
  block_passes i data_ md m k = passes crc ctx (i + k) (data_ + k * ctx.block_size) (md_at md k) m

  md_first : (md : ℕ) → md_at md 0 ≡ md
  md_first md = elim (Bool-cases ctx.md_interleave) [ inl x ↦ rw x | inr x ↦ rw x (omega arith) ]

  shift_md : (md k : ℕ) → md_at (next_md crc ctx md) k ≡ md_at md (suc k)
  shift_md md k = elim (Bool-cases ctx.md_interleave) [ inl x ↦ rw x | inr x ↦ rw x (omega arith) ]

  shift_ignored :
      (data_ md : ℕ) (m : Mem) (k : ℕ)
      → block_ignored (data_ + ctx.block_size) (next_md crc ctx md) m k
        ≡ block_ignored data_ md m (suc k)
  shift_ignored data_ md m k =
      let at : data_ + ctx.block_size + k * ctx.block_size ≡ data_ + suc k * ctx.block_size =
        omega arith in
      ap (λ d. ignores crc ctx (pif_addr crc ctx d (md_at (next_md crc ctx md) k)) m) at
      ∙ ap (λ e. ignores crc ctx (pif_addr crc ctx (data_ + suc k * ctx.block_size) e) m)
          (shift_md md k)

  shift_passes :
      (i data_ md : ℕ) (m : Mem) (k : ℕ)
      → block_passes (i + 1) (data_ + ctx.block_size) (next_md crc ctx md) m k
        ≡ block_passes i data_ md m (suc k)
  shift_passes i data_ md m k =
      let at : data_ + ctx.block_size + k * ctx.block_size ≡ data_ + suc k * ctx.block_size =
        omega arith in
      let ik : i + 1 + k ≡ i + suc k = omega arith in
      ap
        (λ j.
          passes crc ctx j (data_ + ctx.block_size + k * ctx.block_size)
            (md_at (next_md crc ctx md) k) m)
        ik
      ∙ ap (λ d. passes crc ctx (i + suc k) d (md_at (next_md crc ctx md) k) m) at
      ∙ ap (λ e. passes crc ctx (i + suc k) (data_ + suc k * ctx.block_size) e m) (shift_md md k)

  first_ignored :
      (data_ md : ℕ) (m : Mem)
      → block_ignored data_ md m 0 ≡ ignores crc ctx (pif_addr crc ctx data_ md) m
  first_ignored data_ md m =
      let at : data_ + 0 * ctx.block_size ≡ data_ = omega arith in
      ap (λ d. ignores crc ctx (pif_addr crc ctx d (md_at md 0)) m) at
      ∙ ap (λ e. ignores crc ctx (pif_addr crc ctx data_ e) m) (md_first md)

  first_passes :
      (i data_ md : ℕ) (m : Mem) → block_passes i data_ md m 0 ≡ passes crc ctx i data_ md m
  first_passes i data_ md m =
      let at : data_ + 0 * ctx.block_size ≡ data_ = omega arith in
      let ik : i + 0 ≡ i = omega arith in
      ap (λ j. passes crc ctx j (data_ + 0 * ctx.block_size) (md_at md 0) m) ik
      ∙ ap (λ d. passes crc ctx i d (md_at md 0) m) at
      ∙ ap (λ e. passes crc ctx i data_ e m) (md_first md)

  all_pass :
      (n i data_ md : ℕ) (m : Mem)
      → passes crc ctx i data_ md m ≡ true
      → ((k : ℕ)
          → k < n
          → block_passes (i + 1) (data_ + ctx.block_size) (next_md crc ctx md) m k ≡ true)
      → (k : ℕ) → k < suc n
      → block_passes i data_ md m k ≡ true
  all_pass n i data_ md m ok f zero lt = first_passes i data_ md m ∙ ok
  all_pass n i data_ md m ok f (suc k) lt = sym (shift_passes i data_ md m k) ∙ f k (omega arith)

  -- Where no block is to be ignored, xnvme_pi_verify() returns 0 just if every block passes all
  -- the checks that the flags ask for, and -1 otherwise.
  pub verify-decides :
      (n i data_ md : ℕ) (m : Mem)
      → ((k : ℕ) → k < n → block_ignored data_ md m k ≡ false)
      → (((verify_from crc ctx n i data_ md m ≡ value 0)
            ↔ ((k : ℕ) → k < n → block_passes i data_ md m k ≡ true))
          × ((verify_from crc ctx n i data_ md m ≡ value 0)
              ⊎ (verify_from crc ctx n i data_ md m ≡ fail (errno_of 1))))
  unfolding verify_from
  verify-decides zero i data_ md m h = ((λ e k lt. absurd (omega arith), λ f. refl), inl refl)
  verify-decides (suc n) i data_ md m h =
      let ((to, from), both) =
        verify-decides n (i + 1) (data_ + ctx.block_size) (next_md crc ctx md) m
          (λ k lt. shift_ignored data_ md m k ∙ h (suc k) (omega arith)) in
      let seen : ignores crc ctx (pif_addr crc ctx data_ md) m ≡ false =
        sym (first_ignored data_ md m) ∙ h 0 (omega arith) in
      elim (Bool-cases (passes crc ctx i data_ md m)) [
        | inl ok ↦
            rw (seen, ok)
              (
                (
                  λ e. all_pass n i data_ md m ok (to e),
                  λ f. from (λ k lt. shift_passes i data_ md m k ∙ f (suc k) (omega arith)),
                ),
                both,
              )
        | inr bad ↦
            rw (seen, bad)
              (
                (
                  λ e. absurd (cc e),
                  λ f. absurd (cc (f 0 (omega arith), first_passes i data_ md m, bad)),
                ),
                inr refl,
              )
      ]

  -- A block that is to be ignored, with blocks before it that pass, makes xnvme_pi_verify()
  -- return 0, whatever the blocks behind it hold.
  pub verify-skips :
      (j n i data_ md : ℕ) (m : Mem)
      → j < n
      → ((k : ℕ) → k < j → block_passes i data_ md m k ≡ true)
      → block_ignored data_ md m j ≡ true
      → verify_from crc ctx n i data_ md m ≡ value 0
  unfolding verify_from
  verify-skips j zero i data_ md m lt before skip = absurd (omega arith)
  verify-skips zero (suc n) i data_ md m lt before skip = rw (sym (first_ignored data_ md m) ∙ skip)
  verify-skips (suc j) (suc n) i data_ md m lt before skip =
      let rest : verify_from crc ctx n (i + 1) (data_ + ctx.block_size) (next_md crc ctx md) m
          ≡ value 0 =
        verify-skips j n (i + 1) (data_ + ctx.block_size) (next_md crc ctx md) m (omega arith)
          (λ k lt. shift_passes i data_ md m k ∙ before (suc k) (omega arith))
          (shift_ignored data_ md m j ∙ skip) in
      let ok : passes crc ctx i data_ md m ≡ true =
        sym (first_passes i data_ md m) ∙ before 0 (omega arith) in
      rw (rest, ok) (ite_same (ignores crc ctx (pif_addr crc ctx data_ md) m))
    where
      ite_same : (b : Bool) → (if b then value 0 else value 0) ≡ value 0
      ite_same true = refl
      ite_same false = refl
