-- ===== src/Block/Admin.antt =====
-- lib/xnvme_be_linux_block.c: the admin commands on a block device of Linux, answered from the
-- attributes in sysfs.
mod Tests
use xnvme.Common.{
  ℕ, ◌*◌, ◌/◌, ◌%◌, ◌^◌, Bool, true, false, not, ◌&&◌, ◌||◌, ◌==◌, ltb, if◌then◌else◌, get_bits,
  put_bits, shl64, mul64, Option, none, some, Errno, ◌⊎◌, inl, inr, Ret, value, fail, enosys,
  errno_of,
}
use xnvme.Cmd.{Ctx, update}
use xnvme.Geo.{Idfy, ilog2}
use xnvme.Ramdisk.Admin.{cns, csi}

-- The attributes of a device as numbers, or the error of reading them; `nr_zones` is none where
-- BLKGETNRZONES fails.
pub record Attrs : Type 0 where
  pub size : Errno ⊎ ℕ
  pub logical_block_size : Errno ⊎ ℕ
  pub max_hw_sectors_kb : Errno ⊎ ℕ
  pub is_host_managed : Bool
  pub nr_zones : Option ℕ

-- _idfy_ctrlr()
unfoldable pub block_idfy_ctrlr : Attrs → Idfy → Ret × Idfy
unfolding ilog2
block_idfy_ctrlr a id = elim a.max_hw_sectors_kb [
  | inl e ↦ (fail e, id)
  | inr val ↦ (value 0, record id { mdts = ilog2 val % 2 ^ 8 })
]

-- The assignments of _idfy_ns() to the fields that are read, of a size in sectors.
unfoldable pub block_ns_fields : ℕ → ℕ → Idfy → Idfy
unfolding ilog2
block_ns_fields val nbytes id = record id {
  nsze = val / (nbytes / 2 ^ 9);
  format = 0;
  lbaf_ms = update id.lbaf_ms 0 0;
  lbaf_ds = update id.lbaf_ds 0 (ilog2 nbytes % 2 ^ 8);
}

-- _idfy_ns(): none is a division by 0, of a block size below that of a sector.
unfoldable pub block_idfy_ns : Attrs → Idfy → Option (Ret × Idfy)
unfolding block_ns_fields
block_idfy_ns a id = elim a.size [
  | inl e ↦ some (fail e, id)
  | inr val ↦ elim a.logical_block_size [
    | inl e ↦ some (fail e, id)
    | inr nbytes ↦ if ltb nbytes 512 then none else some (value 0, block_ns_fields val nbytes id)
  ]
]

-- _idfy_ns_iocs(): a failed ioctl() is -1, and none is a division by 0.
unfoldable pub block_idfy_ns_iocs : Attrs → Idfy → Option (Ret × Idfy)
block_idfy_ns_iocs a id = elim a.size [
  | inl e ↦ some (fail e, id)
  | inr val ↦ elim a.nr_zones [
    | none ↦ some (fail (errno_of 1), id)
    | some nr_zones ↦ elim a.logical_block_size [
      | inl e ↦ some (fail e, id)
      | inr nbytes ↦
          if mul64 nr_zones nbytes == 0
          then none
          else some (
            value 0,
            record id { lbafe_zsze = update id.lbafe_zsze 0 (shl64 val 9 / mul64 nr_zones nbytes) },
          )
    ]
  ]
]

-- The completions of _idfy() that it writes itself.
abbrev pub idfy_failed : Ctx → Ctx
idfy_failed c = record c { sc = 3; sct = 3 }

abbrev pub idfy_done : Ctx → Ctx
idfy_done c = record c { sc = 0; sct = 0 }

-- _idfy() into data of which `id` are the fields that are read.
unfoldable pub block_idfy : Attrs → Ctx → Idfy → Option (Ret × Ctx × Idfy)
unfolding block_idfy_ctrlr block_idfy_ns block_idfy_ns_iocs
block_idfy a c id =
    let zoned : Bool = csi c.cmd == 2 && a.is_host_managed in
    let failed : Option (Ret × Ctx × Idfy) = some (value 1, idfy_failed c, id) in
    if cns c.cmd == 5
    then (if not zoned
        then failed
        else elim (block_idfy_ns_iocs a id) [ none ↦ none | some (err, id') ↦ some (err, c, id') ])
    else if cns c.cmd == 0
    then elim (block_idfy_ns a id) [ none ↦ none | some (err, id') ↦ some (err, c, id') ]
    else if cns c.cmd == 6
    then (if not zoned then failed else some (value 0, idfy_done c, id))
    else if cns c.cmd == 1
    then (let (err, id') = block_idfy_ctrlr a id in some (err, c, id'))
    else failed

-- _gfeat(): 63 is the zero-based number of queues.
unfoldable pub block_gfeat : Ctx → Ret × Ctx
block_gfeat c =
    if get_bits c.cmd.cdw10 0 8 == 7
    then (value 0, record c { cdw0 = put_bits (put_bits 0 0 16 63) 16 16 63 })
    else (fail enosys, c)

-- xnvme_be_linux_block_cmd_admin()
unfoldable pub block_cmd_admin : Attrs → Ctx → Idfy → Option (Ret × Ctx × Idfy)
unfolding block_idfy block_gfeat
block_cmd_admin a c id =
    let (err, c') = block_gfeat c in
    if c.cmd.opcode == 0x06
    then block_idfy a c id
    else if c.cmd.opcode == 0x0A
    then some (err, c', id)
    else some (fail enosys, c, id)
