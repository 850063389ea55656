-- ===== src/Block/Geometry.antt =====
-- The geometry that is made of what a block device of Linux answers.
use xnvme.Common.{
  ℕ, zero, suc, ◌&&◌, mul64, le→ltb, ◌+◌, ◌-◌, ◌*◌, ◌/◌, ◌%◌, ◌^◌, ◌≤◌, ◌<◌, ◌≡◌, refl, sym, ap,
  ◌∙◌, Bool, true, false, none, some, inr, arith, ltb, value, if◌then◌else◌, ◌==◌, ==_ne,
}
use native.Mathlib.Nat.{pow-suc, one-le-pow, pow-le-pow_right, div-mul-le_self}
use xnvme.Cmd.{Ctx, update}
use xnvme.Ramdisk.Admin.{cns}
use xnvme.Geo.{
  Geo, Idfy, block_device, csi_nvm, derive_geo, namespace_geometry, finish, finish_geometry,
  conventional_geometry, lba_fields, ds_nbytes, ilog2,
}
use xnvme.Geo.Derive.{ilog2-pow, ds_nbytes-pow, size-pos, mul64-exact}
use xnvme.Block.Admin.{
  Attrs, block_idfy_ctrlr, block_idfy_ns, block_ns_fields, block_idfy, block_cmd_admin,
}

pow-next : (i k : ℕ) → k ≡ suc i → 2 ^ k ≡ 2 ^ i * 2
pow-next i k e = ap (λ m. 2 ^ m) e ∙ pow-suc 2 i

-- A power of 2 in sectors of 512 bytes.
pow-sectors : (i k : ℕ) → k ≡ i + 9 → 2 ^ k ≡ 512 * 2 ^ i
pow-sectors zero k e = ap (λ m. 2 ^ m) e
pow-sectors (suc i) k e =
    let next : 2 ^ k ≡ 2 ^ (i + 9) * 2 = pow-next (i + 9) k (omega (arith, e)) in
    let prev : 2 ^ (i + 9) ≡ 512 * 2 ^ i = pow-sectors i (i + 9) refl in
    rw (pow-suc 2 i) (omega (arith, next, prev))

-- The data of a block device of `2 ^ k` bytes a block, in sectors of 512 bytes.
abbrev block_data : (id : Idfy) (sectors k j : ℕ) → Idfy
block_data id sectors k j = record id {
  nsze = sectors / 2 ^ (k - 9);
  format = 0;
  lbaf_ms = update id.lbaf_ms 0 0;
  lbaf_ds = update id.lbaf_ds 0 k;
  mdts = j;
}

block_idfy_ns-data :
    (a : Attrs) (id : Idfy) (sectors k : ℕ)
    → a.size ≡ inr sectors
    → a.logical_block_size ≡ inr (2 ^ k)
    → 9 ≤ k
    → k < 32
    → block_idfy_ns a id ≡ some (value 0, block_data id sectors k id.mdts)
unfolding block_idfy_ns block_ns_fields
block_idfy_ns-data a id sectors k size lbs lo hi =
    let s : ℕ = 2 ^ (k - 9) in
    let sect : 2 ^ k ≡ 512 * s = pow-sectors (k - 9) k (omega arith) in
    let pos : 1 ≤ s = one-le-pow (k - 9) 2 (omega arith) in
    let nb : ltb (2 ^ k) 512 ≡ false = le→ltb (2 ^ k) 512 (omega (arith, pos, sect)) in
    let whole : 2 ^ k / 512 ≡ s = rw sect (omega (arith, pos)) in
    let log : ilog2 (2 ^ k) ≡ k = ilog2-pow k (omega arith) in
    let small : k % 256 ≡ k = omega arith in rw (size, lbs, nb, whole, log, small) refl

block_idfy_ctrlr-data :
    (a : Attrs) (id : Idfy) (j : ℕ)
    → a.max_hw_sectors_kb ≡ inr (2 ^ j)
    → j < 20
    → block_idfy_ctrlr a id ≡ (value 0, record id { mdts = j })
unfolding block_idfy_ctrlr
block_idfy_ctrlr-data a id j kb hi =
    let log : ilog2 (2 ^ j) ≡ j = ilog2-pow j (omega arith) in
    let small : j % 256 ≡ j = omega arith in rw (kb, log, small) refl

and-false : (b : Bool) (n : ℕ) → (if b && false then 16 * 1024 else n) ≡ n
and-false false n = refl
and-false true n = refl

block_geo :
    (id : Idfy) (geo : Geo)
    → id.lbaf_ds id.format < 32
    → 0 < id.lbaf_ds id.format
    → id.nsze * 2 ^ id.lbaf_ds id.format < 2 ^ 64
    → (g : Geo) × (derive_geo (value 0) block_device csi_nvm id false none geo ≡ some (value 0, g))
      × (g.nbytes ≡ 2 ^ id.lbaf_ds id.format)
      × (2 ^ g.ssw ≡ g.nbytes)
      × (g.tbytes ≡ id.nsze * g.nbytes)
      × (g.mdts_nbytes ≡ (if id.mdts == 0 then 2 ^ 20 else 2 ^ (id.mdts + 12) % 2 ^ 32))
unfolding derive_geo namespace_geometry finish finish_geometry conventional_geometry lba_fields
block_geo id geo hi lo fits =
    let ds : ℕ = id.lbaf_ds id.format in
    let size : ds_nbytes ds ≡ 2 ^ ds = ds_nbytes-pow ds lo hi in
    let log : ilog2 (ds_nbytes ds) ≡ ds = ap ilog2 size ∙ ilog2-pow ds (omega arith) in
    let mdts : ℕ = if id.mdts == 0 then 2 ^ 20 else 2 ^ (id.mdts + 12) % 2 ^ 32 in
    let one_mul : 1 * id.nsze ≡ id.nsze = omega arith in
    (
      _,
      refl,
      size,
      ap (λ k. 2 ^ k) log ∙ sym size,
      ap (λ a. mul64 (a % 2 ^ 64) (ds_nbytes ds)) one_mul
          ∙ mul64-exact id.nsze (ds_nbytes ds) (rw size fits) (size-pos ds lo hi),
      and-false (ltb (16 * 1024) mdts) mdts,
    )

regroup : (n s : ℕ) → 512 * (n * s) ≡ n * (512 * s)
regroup n s = omega arith

-- A power of 2 in pages of 4096 bytes that does not wrap.
pages : (j : ℕ) → j < 20 → 2 ^ (j + 12) % 2 ^ 32 ≡ 4 * (2 ^ j * 1024)
pages j hi =
    let sect : 2 ^ (j + 12) ≡ 512 * 2 ^ (j + 3) = pow-sectors (j + 3) (j + 12) (omega arith) in
    let most : 2 ^ (j + 12) ≤ 2 ^ 31 = pow-le-pow_right (omega arith) {j = 31} (omega arith) in
    let one : 2 ^ (j + 1) ≡ 2 ^ j * 2 = pow-next j (j + 1) (omega arith) in
    let two : 2 ^ (j + 2) ≡ 2 ^ (j + 1) * 2 = pow-next (j + 1) (j + 2) (omega arith) in
    let three : 2 ^ (j + 3) ≡ 2 ^ (j + 2) * 2 = pow-next (j + 2) (j + 3) (omega arith) in
    omega (arith, sect, most, one, two, three)

block_cmd_admin-ns :
    (a : Attrs) (c : Ctx) (id id' : Idfy)
    → c.cmd.opcode ≡ 0x06
    → cns c.cmd ≡ 0
    → block_idfy_ns a id ≡ some (value 0, id')
    → block_cmd_admin a c id ≡ some (value 0, c, id')
unfolding block_cmd_admin block_idfy
block_cmd_admin-ns a c id id' op ns read = simp (op, ns, read)

block_cmd_admin-ctrlr :
    (a : Attrs) (c : Ctx) (id id' : Idfy)
    → c.cmd.opcode ≡ 0x06
    → cns c.cmd ≡ 1
    → block_idfy_ctrlr a id ≡ (value 0, id')
    → block_cmd_admin a c id ≡ some (value 0, c, id')
unfolding block_cmd_admin block_idfy
block_cmd_admin-ctrlr a c id id' op ns read = simp (op, ns, read)

-- For a block device of 2^k bytes a block, 9 <= k < 32, whose largest transfer is 2^j KiB, 0 <
-- j < 20, and that has fewer than 2^64 bytes, the commands that identify the namespace and then
-- the controller succeed, and the geometry that xnvme_dev_derive_geo() makes of what they read
-- has the block size of the device and covers its size in whole blocks, but its largest
-- transfer is four times that of the device.
pub derive_geo-block :
    (a : Attrs) (id : Idfy) (geo : Geo) (c d : Ctx) (sectors k j : ℕ)
    → c.cmd.opcode ≡ 0x06
    → cns c.cmd ≡ 0
    → d.cmd.opcode ≡ 0x06
    → cns d.cmd ≡ 1
    → a.size ≡ inr sectors
    → a.logical_block_size ≡ inr (2 ^ k)
    → a.max_hw_sectors_kb ≡ inr (2 ^ j)
    → 9 ≤ k
    → k < 32
    → 0 < j
    → j < 20
    → sectors * 2 ^ 9 < 2 ^ 64
    → (id1 : Idfy) × (id2 : Idfy) × (g : Geo) × (block_cmd_admin a c id ≡ some (value 0, c, id1))
      × (block_cmd_admin a d id1 ≡ some (value 0, d, id2))
      × (derive_geo (value 0) block_device csi_nvm id2 false none geo ≡ some (value 0, g))
      × (2 ^ g.ssw ≡ 2 ^ k)
      × (g.nbytes ≡ 2 ^ k)
      × (g.tbytes ≡ sectors / 2 ^ (k - 9) * 2 ^ k)
      × (g.mdts_nbytes ≡ 4 * (2 ^ j * 1024))
derive_geo-block a id geo c d sectors k j cop cns_ dop dns size lbs kb lo hi jlo jhi fits =
    let id1 : Idfy = block_data id sectors k id.mdts in
    let id2 : Idfy = block_data id sectors k j in
    let n : ℕ = sectors / 2 ^ (k - 9) in
    let sect : 2 ^ k ≡ 512 * 2 ^ (k - 9) = pow-sectors (k - 9) k (omega arith) in
    let below : n * 2 ^ (k - 9) ≤ sectors = div-mul-le_self sectors (2 ^ (k - 9)) in
    let within : n * 2 ^ k < 2 ^ 64 =
      rw sect (rw (sym (regroup n (2 ^ (k - 9)))) (omega (arith, below, fits))) in
    let nonzero : (j == 0) ≡ false = ==_ne j 0 (λ e. absurd (omega (arith, e, jlo))) in
    let (g, derived, nbytes, ssw, tbytes, mdts) = block_geo id2 geo hi (omega arith) within in
    (
      id1,
      id2,
      g,
      block_cmd_admin-ns a c id id1 cop cns_ (block_idfy_ns-data a id sectors k size lbs lo hi),
      block_cmd_admin-ctrlr a d id1 id2 dop dns (block_idfy_ctrlr-data a id1 j kb jhi),
      derived,
      ssw ∙ nbytes,
      nbytes,
      tbytes ∙ ap (λ n. sectors / 2 ^ (k - 9) * n) nbytes,
      mdts ∙ rw nonzero (pages j jhi),
    )
