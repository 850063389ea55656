-- ===== src/Geo/Derive.antt =====
-- Properties of the derived geometry of lib/xnvme_dev.c.
use xnvme.Common.{
  ℕ, zero, suc, ◌+◌, ◌-◌, ◌*◌, ◌/◌, ◌%◌, ◌^◌, ◌≤◌, ◌<◌, ◌≡◌, refl, sym, ap, ◌∙◌, Bool, false, ◌==◌,
  ==_ne, arith, value, Option, some, mul64,
}
use native.Mathlib.Nat.{pow-suc, one-le-pow, pow-le-pow_right, mul-le-mul_right}
use xnvme.Geo.{
  Geo, geo_conventional, Idfy, nvme_namespace, csi_nvm, ilog2, ilog2_loop, ds_nbytes, lba_fields,
  conventional_geometry, finish_geometry, namespace_geometry, finish, derive_geo,
}

ilog2_loop-pow : (fuel k val : ℕ) → k < fuel → ilog2_loop fuel (2 ^ k) val ≡ val + k
unfolding ilog2_loop
ilog2_loop-pow zero k val h = absurd (omega arith)
ilog2_loop-pow (suc fuel) zero val h = omega arith
ilog2_loop-pow (suc fuel) (suc k) val h =
    let half : 2 ^ suc k / 2 ≡ 2 ^ k = rw (pow-suc 2 k) (omega arith) in
    let more : (2 ^ k == 0) ≡ false =
      ==_ne (2 ^ k) 0 (λ e. absurd (omega (arith, one-le-pow k 2 (omega arith)))) in
    rw (half, more) (ilog2_loop-pow fuel k (val + 1) (omega arith) ∙ omega arith)

pub ilog2-pow : (k : ℕ) → k < 64 → ilog2 (2 ^ k) ≡ k
unfolding ilog2
ilog2-pow k h = ilog2_loop-pow 64 k 0 h ∙ omega arith

pub ds_nbytes-pow : (ds : ℕ) → 0 < ds → ds < 32 → ds_nbytes ds ≡ 2 ^ ds
ds_nbytes-pow zero lo hi = absurd (omega arith)
ds_nbytes-pow (suc d) lo hi =
    let prev : suc d - 1 ≡ d = omega arith in
    let double : 2 ^ suc d ≡ 2 ^ d * 2 = pow-suc 2 d in
    let most : 2 ^ d ≤ 2 ^ 30 = pow-le-pow_right (omega arith) {j = 30} (omega arith) in
    rw (prev, double) (omega (arith, most))

-- Products of sizes that do not wrap.
pub mul64-exact : (a b : ℕ) → a * b < 2 ^ 64 → 0 < b → mul64 (a % 2 ^ 64) b ≡ a * b
mul64-exact a b h pos =
    let le : 1 * a ≤ b * a = mul-le-mul_right a pos in
    let small : a % 2 ^ 64 ≡ a = omega (arith, le) in rw small (omega arith)

pub size-pos : (ds : ℕ) → 0 < ds → ds < 32 → 0 < ds_nbytes ds
size-pos ds lo hi = rw (ds_nbytes-pow ds lo hi) (one-le-pow ds 2 (omega arith))

-- For an identified namespace of conventional blocks of 2^ds bytes, 0 < ds < 32, and below 2^64
-- bytes, xnvme_dev_derive_geo() succeeds with a geometry of that block size that covers all the
-- blocks, in which 2 to the power of `ssw` is the block size.
pub derive_geo-conventional :
    (id : Idfy) (fabrics : Bool) (attrs : Option (ℕ × ℕ)) (geo : Geo)
    → 0 < id.lbaf_ds id.format
    → id.lbaf_ds id.format < 32
    → id.nsze * 2 ^ id.lbaf_ds id.format < 2 ^ 64
    → (g : Geo) × (derive_geo (value 0) nvme_namespace csi_nvm id fabrics attrs geo
        ≡ some (value 0, g))
      × (g.type_ ≡ geo_conventional)
      × (g.nbytes ≡ 2 ^ id.lbaf_ds id.format)
      × (2 ^ g.ssw ≡ g.nbytes)
      × (g.tbytes ≡ id.nsze * g.nbytes)
unfolding derive_geo namespace_geometry finish finish_geometry conventional_geometry lba_fields
derive_geo-conventional id fabrics attrs geo lo hi fits =
    let ds : ℕ = id.lbaf_ds id.format in
    let size : ds_nbytes ds ≡ 2 ^ ds = ds_nbytes-pow ds lo hi in
    let log : ilog2 (ds_nbytes ds) ≡ ds = ap ilog2 size ∙ ilog2-pow ds (omega arith) in
    let one_mul : 1 * id.nsze ≡ id.nsze = omega arith in
    (
      _,
      refl,
      refl,
      size,
      ap (λ k. 2 ^ k) log ∙ sym size,
      ap (λ a. mul64 (a % 2 ^ 64) (ds_nbytes ds)) one_mul
          ∙ mul64-exact id.nsze (ds_nbytes ds) (rw size fits) (size-pos ds lo hi),
    )
