-- ===== src/Ramdisk/Media.antt =====
-- A ramdisk's medium after commands without vectors.
use xnvme.Common.{
  ℕ, ◌+◌, ◌≤◌, ◌<◌, ◌≡◌, refl, ◌∙◌, ◌⊎◌, inl, inr, ◌↔◌, true, false, value, fail, eio, enosys,
  enotsup, if◌then◌else◌, Bool-cases,
}
use xnvme.Cmd.{Ctx, Payload, slba, nlb}
use xnvme.Mem.{bytes, same_bytes}
use xnvme.Mem.Copy.{bytes-memcpy, memset-at, memset-else, same_bytes_iff}
use xnvme.Ramdisk.{
  Disk, IoOpc, io_opc, write, read, write_zeroes, compare, fs_write, fs_read, other, lba_addr,
  blocks_nbytes, run_io, ramdisk_cmd_io, has_meta,
}

-- The addresses of the logical blocks that a command names.
module _ (c : Ctx) (pl : Payload) (d : Disk) where
  -- A command without metadata runs as its opcode says.
  pub cmd_io-run :
      (o : IoOpc)
      → io_opc c.cmd.opcode ≡ o
      → has_meta pl ≡ false
      → ramdisk_cmd_io c pl d ≡ ((run_io o c.cmd pl d).0, c, (run_io o c.cmd pl d).1)
  unfolding ramdisk_cmd_io
  cmd_io-run o is none = rw (ramdisk_cmd_io, none, is)

-- What a write command stores in logical blocks is what a later read of the same blocks and
-- size puts into its buffer, and the read succeeds; neither command has metadata.
pub read-write :
    (cw cr : Ctx) (plw plr : Payload) (d : Disk)
    → io_opc cw.cmd.opcode ≡ write
    → io_opc cr.cmd.opcode ≡ read
    → has_meta plw ≡ false
    → has_meta plr ≡ false
    → slba cr.cmd ≡ slba cw.cmd
    → plr.nbytes ≡ plw.nbytes
    → let d1 = (ramdisk_cmd_io cw plw d).2 in
      let (err, c, d2) = ramdisk_cmd_io cr plr d1 in
      (err ≡ value 0) × (bytes d2.mem plr.buf plr.nbytes ≡ bytes d.mem plw.buf plw.nbytes)
unfolding run_io
read-write cw cr plw plr d is_write is_read w_none r_none same size =
    let d1 : Disk = (run_io write cw.cmd plw d).1 in
    rw (cmd_io-run cw plw d write is_write w_none, cmd_io-run cr plr d1 read is_read r_none)
      (
        refl,
        bytes-memcpy plr.buf (lba_addr d (slba cr.cmd)) plr.nbytes d1.mem
            ∙ rw (same, size) (bytes-memcpy (lba_addr d (slba cw.cmd)) plw.buf plw.nbytes d.mem),
      )

-- What a file write stores at a byte offset is what a later file read of the same offset and
-- size puts into its buffer, and the read succeeds; neither command has metadata.
pub fs_read-fs_write :
    (cw cr : Ctx) (plw plr : Payload) (d : Disk)
    → io_opc cw.cmd.opcode ≡ fs_write
    → io_opc cr.cmd.opcode ≡ fs_read
    → has_meta plw ≡ false
    → has_meta plr ≡ false
    → slba cr.cmd ≡ slba cw.cmd
    → plr.nbytes ≡ plw.nbytes
    → let d1 = (ramdisk_cmd_io cw plw d).2 in
      let (err, c, d2) = ramdisk_cmd_io cr plr d1 in
      (err ≡ value 0) × (bytes d2.mem plr.buf plr.nbytes ≡ bytes d.mem plw.buf plw.nbytes)
unfolding run_io
fs_read-fs_write cw cr plw plr d is_write is_read w_none r_none same size =
    let d1 : Disk = (run_io fs_write cw.cmd plw d).1 in
    rw (cmd_io-run cw plw d fs_write is_write w_none, cmd_io-run cr plr d1 fs_read is_read r_none)
      (
        refl,
        bytes-memcpy plr.buf (d.ramdisk + slba cr.cmd) plr.nbytes d1.mem
            ∙ rw (same, size) (bytes-memcpy (d.ramdisk + slba cw.cmd) plw.buf plw.nbytes d.mem),
      )

-- A write of zeroes without metadata succeeds, clears its blocks, and changes no other address.
pub write_zeroes-zeroes :
    (c : Ctx) (pl : Payload) (d : Disk)
    → io_opc c.cmd.opcode ≡ write_zeroes
    → has_meta pl ≡ false
    → let (err, c', d') = ramdisk_cmd_io c pl d in
      let at = lba_addr d (slba c.cmd) in
      let n = blocks_nbytes d (nlb c.cmd) in
      (err ≡ value 0)
      × ((i : ℕ) → i < n → d'.mem (at + i) ≡ 0)
      × ((a : ℕ) → (a < at) ⊎ (at + n ≤ a) → d'.mem a ≡ d.mem a)
unfolding run_io
write_zeroes-zeroes c pl d is none =
    let at : ℕ = lba_addr d (slba c.cmd) in
    let n : ℕ = blocks_nbytes d (nlb c.cmd) in
    rw (cmd_io-run c pl d write_zeroes is none)
      (refl, λ i lt. memset-at at 0 n i d.mem lt, λ a out. memset-else at 0 n a d.mem out)

-- A compare without metadata succeeds just where the blocks hold the bytes of the buffer, fails
-- with EIO otherwise, and changes nothing.
pub compare-decides :
    (c : Ctx) (pl : Payload) (d : Disk)
    → io_opc c.cmd.opcode ≡ compare
    → has_meta pl ≡ false
    → let (err, c', d') = ramdisk_cmd_io c pl d in
      let held = bytes d.mem (lba_addr d (slba c.cmd)) pl.nbytes in
      ((err ≡ value 0) ↔ (held ≡ bytes d.mem pl.buf pl.nbytes))
      × ((err ≡ value 0) ⊎ (err ≡ fail eio))
      × (d' ≡ d)
unfolding run_io
compare-decides c pl d is none =
    let (to, from) = same_bytes_iff d.mem (lba_addr d (slba c.cmd)) pl.buf pl.nbytes in
    rw (cmd_io-run c pl d compare is none)
      (elim (Bool-cases (same_bytes d.mem (lba_addr d (slba c.cmd)) pl.buf pl.nbytes)) [
        | inl eq ↦ rw eq ((λ h. to eq, λ h. refl), inl refl, refl)
        | inr ne ↦ rw ne ((λ h. absurd (cc h), λ h. absurd (cc (from h, ne))), inr refl, refl)
      ])

-- A command with metadata is refused with ENOTSUP, and one with an opcode that the device does
-- not know with ENOSYS; context and device stay as they are.
pub cmd_io-refuses :
    (c : Ctx) (pl : Payload) (d : Disk)
    → (io_opc c.cmd.opcode ≡ other) ⊎ (has_meta pl ≡ true)
    → ramdisk_cmd_io c pl d ≡ (if has_meta pl then fail enotsup else fail enosys, c, d)
unfolding ramdisk_cmd_io run_io
cmd_io-refuses c pl d h = elim (Bool-cases (has_meta pl)) [
  | inl some_ ↦ rw (ramdisk_cmd_io, some_)
  | inr none ↦ elim h [
    | inl is ↦ rw (cmd_io-run c pl d other is none, none)
    | inr some_ ↦ absurd (cc (some_, none))
  ]
]
