-- ===== src/Lba/Ranges.antt =====
-- Properties of the constructors of lib/xnvme_lba.c.
use xnvme.Common.{
  ℕ, ◌+◌, ◌-◌, ◌*◌, ◌/◌, ◌%◌, ◌^◌, ◌≤◌, ◌<◌, ◌≡◌, ◌≢◌, refl, sym, ap, ◌∙◌, ◌⊎◌, inl, inr, true,
  false, ◌==◌, ==_ne, ==_iff, ltb, le→ltb, arith, Bool-cases, ℕ_discrete,
}
use native.Mathlib.Nat.{div-add-mod', mul-le-mul_left}
use xnvme.Geo.{Geo}
use xnvme.Lba.{empty_range, has_lbas, from_slba_naddrs, from_slba_elba, from_offset_nbytes}

-- On a device with blocks, the range of fewer than 2^32 blocks, and not none, from `slba` on,
-- where neither its end nor its bytes wrap, is valid, ends at slba + naddrs - 1 and has the
-- bytes of its blocks.
pub from_slba_naddrs-valid :
    (geo : Geo) (slba naddrs : ℕ)
    → has_lbas geo.type_ ≡ true
    → naddrs ≢ 0
    → naddrs < 2 ^ 32
    → slba + naddrs ≤ 2 ^ 64
    → naddrs * geo.nbytes < 2 ^ 64
    → from_slba_naddrs geo slba naddrs ≡ record {
      slba = slba;
      elba = slba + naddrs - 1;
      naddrs = naddrs;
      nbytes = naddrs * geo.nbytes;
      is_valid = true;
    }
unfolding from_slba_naddrs
from_slba_naddrs-valid geo slba naddrs kind some_ few fits small =
    let nz : (naddrs == 0) ≡ false = ==_ne naddrs 0 some_ in
    let elba : ((slba + naddrs) % 2 ^ 64 + 2 ^ 64 - 1) % 2 ^ 64 ≡ slba + naddrs - 1 = omega arith in
    let count : naddrs % 2 ^ 32 ≡ naddrs = omega arith in
    let size : (naddrs * geo.nbytes) % 2 ^ 64 ≡ naddrs * geo.nbytes = omega arith in
    rw (kind, nz, elba, count, size)

-- On a device with blocks, a range made from its first and its last block, at most 2^32 - 1 of
-- them and below 2^64 bytes, is valid, starts and ends there, and counts the blocks between.
pub from_slba_elba-ends :
    (geo : Geo) (slba elba : ℕ)
    → has_lbas geo.type_ ≡ true
    → slba ≤ elba
    → elba < 2 ^ 64
    → elba - slba + 1 < 2 ^ 32
    → (elba - slba + 1) * geo.nbytes < 2 ^ 64
    → let rng = from_slba_elba geo slba elba in
      (rng.is_valid ≡ true) × (rng.slba ≡ slba) × (rng.elba ≡ elba) × (rng.naddrs ≡ elba - slba + 1)
unfolding from_slba_elba
from_slba_elba-ends geo slba elba kind le small few fits =
    let in_order : ltb elba slba ≡ false = le→ltb elba slba le in
    let n : ℕ = elba - slba + 1 in
    let count : ((elba + 2 ^ 64 - slba) % 2 ^ 64 + 1) % 2 ^ 64 ≡ n = omega arith in
    let last : slba + n - 1 ≡ elba = omega arith in
    rw
      (
        in_order,
        count,
        from_slba_naddrs-valid geo slba n kind (λ e. absurd (omega arith)) few (omega arith) fits,
      )
      (refl, refl, last, refl)

module _ (geo : Geo) (offset nbytes : ℕ) (kind : has_lbas geo.type_ ≡ true) where
  from_offset_nbytes-aligned :
      offset % geo.nbytes ≡ 0
      → nbytes % geo.nbytes ≡ 0
      → from_offset_nbytes geo offset nbytes
        ≡ from_slba_naddrs geo (offset / geo.nbytes) (nbytes / geo.nbytes)
  unfolding from_offset_nbytes
  from_offset_nbytes-aligned even whole =
      let first : (offset % geo.nbytes == 0) ≡ true = (==_iff _ 0).1 even in
      let test : (nbytes % geo.nbytes == 0) ≡ true = (==_iff _ 0).1 whole in rw (kind, first, test)

  from_offset_nbytes-odd :
      (offset % geo.nbytes ≢ 0) ⊎ (nbytes % geo.nbytes ≢ 0)
      → from_offset_nbytes geo offset nbytes ≡ empty_range
  unfolding from_offset_nbytes
  from_offset_nbytes-odd (inl odd) =
      let test : (offset % geo.nbytes == 0) ≡ false = ==_ne _ 0 odd in rw (kind, test)
  from_offset_nbytes-odd (inr odd) =
      let test : (nbytes % geo.nbytes == 0) ≡ false = ==_ne _ 0 odd in
      elim (Bool-cases (offset % geo.nbytes == 0)) [
        | inl x ↦ rw (kind, x, test)
        | inr x ↦ rw (kind, x)
      ]

add-mul : (a b c : ℕ) → (a + b) * c ≡ a * c + b * c
add-mul a b c = omega arith

-- On a device with blocks, the range of some bytes, fewer than 2^32 blocks and ending below
-- 2^64, is valid, starts with the block of the first byte, ends with that of the last and has
-- just these bytes, where offset and number are multiples of the block size, and is empty and
-- not valid where one of them is not.
pub from_offset_nbytes-covers :
    (geo : Geo) (offset nbytes : ℕ)
    → has_lbas geo.type_ ≡ true
    → 0 < geo.nbytes
    → nbytes ≢ 0
    → nbytes / geo.nbytes < 2 ^ 32
    → offset + nbytes ≤ 2 ^ 64
    → nbytes < 2 ^ 64
    → let rng = from_offset_nbytes geo offset nbytes in
      ((rng.is_valid ≡ true)
        × (rng.slba * geo.nbytes ≡ offset)
        × ((rng.elba + 1) * geo.nbytes ≡ offset + nbytes)
        × (rng.nbytes ≡ nbytes)
        × (rng.naddrs * geo.nbytes ≡ nbytes))
      ⊎ ((rng ≡ empty_range) × ((offset % geo.nbytes ≢ 0) ⊎ (nbytes % geo.nbytes ≢ 0)))
from_offset_nbytes-covers geo offset nbytes kind pos some_ few fits small =
    elim (ℕ_discrete (offset % geo.nbytes) 0) [
      | no odd ↦ inr (from_offset_nbytes-odd geo offset nbytes kind (inl odd), inl odd)
      | yes even ↦ elim (ℕ_discrete (nbytes % geo.nbytes) 0) [
        | no odd ↦ inr (from_offset_nbytes-odd geo offset nbytes kind (inr odd), inr odd)
        | yes whole ↦
            let s : ℕ = offset / geo.nbytes in
            let n : ℕ = nbytes / geo.nbytes in
            let start : s * geo.nbytes ≡ offset =
              omega (arith, div-add-mod' offset geo.nbytes, even) in
            let size : n * geo.nbytes ≡ nbytes =
              omega (arith, div-add-mod' nbytes geo.nbytes, whole) in
            let le_s : s * 1 ≤ s * geo.nbytes = mul-le-mul_left s pos in
            let le_n : n * 1 ≤ n * geo.nbytes = mul-le-mul_left n pos in
            let nonzero : n ≢ 0 =
              λ e. some_ (sym size ∙ ap (λ k. k * geo.nbytes) e ∙ omega arith) in
            let last : (s + n - 1 + 1) * geo.nbytes ≡ offset + nbytes =
              ap (λ k. k * geo.nbytes) (omega (arith, nonzero))
              ∙ add-mul s n geo.nbytes
              ∙ omega (arith, start, size) in
            inl (
              rw
                (
                  from_offset_nbytes-aligned geo offset nbytes kind even whole,
                  from_slba_naddrs-valid geo s n kind nonzero few
                      (omega (arith, le_s, le_n, start, size)) (omega (arith, size)),
                )
                (refl, start, last, size, size))
      ]
    ]

-- From 2^32 blocks on, where their bytes do not wrap, a range is valid and has all the bytes of
-- its blocks, but a smaller number of addresses.
pub from_slba_naddrs-truncates :
    (geo : Geo) (slba naddrs : ℕ)
    → has_lbas geo.type_ ≡ true
    → 2 ^ 32 ≤ naddrs
    → naddrs * geo.nbytes < 2 ^ 64
    → let rng = from_slba_naddrs geo slba naddrs in
      (rng.is_valid ≡ true) × (rng.nbytes ≡ naddrs * geo.nbytes) × (rng.naddrs < naddrs)
unfolding from_slba_naddrs
from_slba_naddrs-truncates geo slba naddrs kind many small =
    let nz : (naddrs == 0) ≡ false = ==_ne naddrs 0 (λ e. absurd (omega arith)) in
    let size : (naddrs * geo.nbytes) % 2 ^ 64 ≡ naddrs * geo.nbytes = omega arith in
    rw (kind, nz, size) (refl, refl, omega arith)
