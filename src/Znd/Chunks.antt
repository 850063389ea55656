-- ===== src/Znd/Chunks.antt =====
-- The size of the buffer that a report of zones is fetched into.
use xnvme.Common.{
  ℕ, zero, suc, ◌+◌, ◌/◌, ◌≤◌, ◌<◌, ◌≡◌, ◌≢◌, refl, false, ◌==◌, arith, lt→ltb, le→ltb, dec_lt,
  ==_ne,
}
use native.Mathlib.Nat.{div-add-mod, mod-lt, mul-suc}
use xnvme.Znd.Fetch.{shrink, dbuf_nentries, dbuf_nbytes}

-- The number of entries fits a transfer, and one more does not.
abbrev pub IsLargest : ℕ → ℕ → ℕ → Type 0
IsLargest mdts zrent n = (n ≢ 0 → dbuf_nbytes zrent n ≤ mdts) × (mdts < dbuf_nbytes zrent (n + 1))

shrink-zero : (mdts zrent : ℕ) → shrink mdts zrent 1 ≡ 0
unfolding shrink
shrink-zero mdts zrent = ground arith

shrink-stop : (mdts zrent n : ℕ) → dbuf_nbytes zrent n ≤ mdts → shrink mdts zrent (suc n) ≡ n
unfolding shrink
shrink-stop mdts zrent n fits = rw (shrink, le→ltb mdts (dbuf_nbytes zrent n) fits)

shrink-go :
    (mdts zrent n : ℕ)
    → mdts < dbuf_nbytes zrent (suc n)
    → shrink mdts zrent (suc (suc n)) ≡ shrink mdts zrent (suc n)
unfolding shrink
shrink-go mdts zrent n over =
    let more : (suc n == 0) ≡ false = ==_ne (suc n) 0 (λ e. absurd (omega (arith, e))) in
    rw (shrink, lt→ltb mdts (dbuf_nbytes zrent (suc n)) over, more) refl

shrink-IsLargest :
    (mdts zrent n : ℕ)
    → mdts < dbuf_nbytes zrent (suc n)
    → IsLargest mdts zrent (shrink mdts zrent (suc n))
shrink-IsLargest mdts zrent zero h = rw (shrink-zero mdts zrent) ((λ ne. absurd (ne refl)), h)
shrink-IsLargest mdts zrent (suc n) h = elim (dec_lt mdts (dbuf_nbytes zrent (suc n))) [
  | yes over ↦ rw (shrink-go mdts zrent n over) (shrink-IsLargest mdts zrent n over)
  | no fits ↦
      let fits' : dbuf_nbytes zrent (suc n) ≤ mdts = omega arith in
      let next : suc n + 1 ≡ suc (suc n) = omega arith in
      rw (shrink-stop mdts zrent (suc n) fits', next) ((λ ne. fits'), h)
]

-- The number of entries that xnvme_znd_report_from_dev() fetches at a time, for entries that
-- are not empty, fits a transfer with its header, where it is not 0, and one entry more does
-- not fit.
pub dbuf_nentries-IsLargest :
    (mdts zrent : ℕ) → 0 < zrent → IsLargest mdts zrent (dbuf_nentries mdts zrent)
unfolding dbuf_nentries
dbuf_nentries-IsLargest mdts zrent pos =
    let n : ℕ = mdts / zrent in
    let next : n + 2 ≡ suc (suc n) = omega arith in
    rw next (
      shrink-IsLargest mdts zrent (suc n) (
        omega
          (arith, div-add-mod mdts zrent, mod-lt mdts pos, mul-suc zrent n, mul-suc zrent (suc n))))
