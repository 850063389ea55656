-- ===== src/Ramdisk/Admin.antt =====
-- lib/xnvme_be_ramdisk_admin.c and the size of lib/xnvme_be_ramdisk_dev.c: the admin commands of
-- the ramdisk. A data structure is its bytes, by their offsets.
use xnvme.Common.{
  ℕ, zero, suc, ◌+◌, ◌-◌, ◌*◌, ◌/◌, ◌%◌, ◌^◌, Bool, false, not, ◌&&◌, ◌||◌, ◌==◌, leb,
  if◌then◌else◌, Option, none, some, List, [], ◌∷◌, put_bits, get_bits, mul64, Ret, value, fail,
  enosys, errno_of,
}
use xnvme.Cmd.{Cmd, Ctx, Payload, update}
use xnvme.Mem.{Mem}

-- A field of `k` bytes at an offset.
unfoldable pub store_le : ℕ → ℕ → ℕ → Mem → Mem
store_le zero off v b = b
store_le (suc k) off v b = store_le k (off + 1) (v / 256) (update b off (v % 256))

-- A field of `width` bits in the byte at an offset.
abbrev pub store_bits : ℕ → ℕ → ℕ → ℕ → Mem → Mem
store_bits off bit width v b = update b off (put_bits (b off) bit width v)

-- strrchr(): the suffix from the last `c` on.
unfoldable pub strrchr : List ℕ → ℕ → Option (List ℕ)
strrchr [] c = none
strrchr (x ∷ xs) c = elim (strrchr xs c) [
  | some s ↦ some s
  | none ↦ if x == c then some (x ∷ xs) else none
]

-- `strcmp(s, "GB") == 0`
unfoldable pub is_gb : List ℕ → Bool
is_gb (g ∷ b ∷ []) = (g == 71) && (b == 66)
is_gb _ = false

-- The digits of atoi() up to the first character that is none.
unfoldable pub atoi_digits : ℕ → List ℕ → ℕ
atoi_digits acc [] = acc
atoi_digits acc (c ∷ cs) =
    let rest : ℕ = atoi_digits (acc * 10 + (c - 48)) cs in
    if leb 48 c && leb c 57 then rest else acc

abbrev is_space : ℕ → Bool
is_space c = (c == 32) || (leb 9 c && leb c 13)

-- `(size_t)atoi(s)`, for a number within the range of int.
unfoldable pub atoi : List ℕ → ℕ
unfolding atoi_digits
atoi [] = 0
atoi (c ∷ cs) =
    let rest : ℕ = atoi cs in
    if is_space c
    then rest
    else if c == 45
    then (2 ^ 64 - atoi_digits 0 cs) % 2 ^ 64
    else if c == 43
    then atoi_digits 0 cs
    else atoi_digits 0 (c ∷ cs)

-- xnvme_be_ramdisk_dev_get_size() for the characters of a URI
unfoldable pub dev_get_size : List ℕ → ℕ
unfolding strrchr is_gb atoi
dev_get_size uri = elim (strrchr uri 71) [
  | none ↦ 0
  | some marker ↦ if not (is_gb marker) then 0 else mul64 (atoi uri) (2 ^ 30)
]

-- The results of the functions below, each given the bytes of the buffer.
-- _idfy_ctrlr_iocs_fs()
unfoldable pub idfy_ctrlr_iocs_fs : Mem → Ret × Mem
unfolding store_le
idfy_ctrlr_iocs_fs b =
    let b1 = store_bits 520 0 1 1 b in
    let b2 = store_le 4 568 1 b1 in
    let b3 = store_le 4 572 (1024 * 1024 * 128) b2 in
    let b4 = store_le 4 576 (1024 * 64) b3 in
    let b5 = store_le 8 528 1 b4 in (value 0, update (update b5 4089 0xAC) 4090 0xDC)

-- The assignments of _idfy_ns_iocs_fs()
unfoldable pub fs_ns_fields : ℕ → Mem → Mem
unfolding store_le
fs_ns_fields size b =
    let b1 = store_le 8 16 size (store_le 8 8 size (store_le 8 0 size b)) in
    update (update b1 4094 0xAC) 4095 0xDC

-- The assignments of _idfy_ns() for so many blocks
unfoldable pub ns_fields : ℕ → Mem → Mem
unfolding store_le
ns_fields nlb b =
    let b1 = store_le 8 16 nlb (store_le 8 8 nlb (store_le 8 0 nlb b)) in
    let b2 = store_bits 26 0 4 0 (update b1 25 0) in
    let b3 = store_bits 131 0 2 0 (update (store_le 2 128 0 b2) 130 9) in
    let b4 = store_le 2 74 128 (store_le 4 76 128 b3) in update b4 80 127

module _ (size : ℕ) where
  -- _idfy_ns_iocs_fs(), where `size` is the result of xnvme_be_ramdisk_dev_get_size()
  unfoldable pub idfy_ns_iocs_fs : Mem → Ret × Mem
  unfolding fs_ns_fields
  idfy_ns_iocs_fs b = if size == 0 then (fail (errno_of 1), b) else (value 0, fs_ns_fields size b)

  -- _idfy_ns()
  unfoldable pub idfy_ns : Mem → Ret × Mem
  unfolding ns_fields
  idfy_ns b = if size == 0 then (fail (errno_of 1), b) else (value 0, ns_fields (size / 512) b)

-- _idfy_ctrlr()
unfoldable pub idfy_ctrlr : Mem → Ret × Mem
idfy_ctrlr b =
    let b1 = store_bits 521 0 1 1 (update b 77 0) in
    let b2 = store_bits 520 3 1 1 b1 in (value 0, store_bits 534 0 1 1 b2)

-- `ctx->cmd.idfy.cns` and `ctx->cmd.idfy.csi`
abbrev pub cns : Cmd → ℕ
cns c = get_bits c.cdw10 0 8

abbrev pub csi : Cmd → ℕ
csi c = get_bits c.cdw11 24 8

module _ (size : ℕ) where
  -- _idfy(): it returns 1 for a structure or a command set that the ramdisk has not.
  unfoldable pub idfy : Cmd → Mem → Ret × Mem
  unfolding idfy_ns idfy_ctrlr idfy_ns_iocs_fs idfy_ctrlr_iocs_fs
  idfy c b =
      if cns c == 0x0
      then idfy_ns size b
      else if cns c == 0x1
      then idfy_ctrlr b
      else if (cns c == 0x5) && (csi c == 0x1F)
      then idfy_ns_iocs_fs size b
      else if (cns c == 0x6) && (csi c == 0x1F)
      then idfy_ctrlr_iocs_fs b
      else (value 1, b)

  -- _ramdisk_gfeat(): 63 is the zero-based number of queues.
  unfoldable pub ramdisk_gfeat : Ctx → Ret × Ctx
  ramdisk_gfeat ctx =
      if get_bits ctx.cmd.cdw10 0 8 == 0x7
      then (value 0, record ctx { cdw0 = put_bits (put_bits 0 0 16 63) 16 16 63 })
      else (fail enosys, ctx)

  -- _xnvme_be_ramdisk_admin_cmd_admin(), with the buffer that `dbuf` points to as its world
  unfoldable pub ramdisk_cmd_admin : Ctx → Payload → Mem → Ret × Ctx × Mem
  unfolding idfy ramdisk_gfeat
  ramdisk_cmd_admin ctx pl b =
      let (err, b') = idfy ctx.cmd b in
      let (err_feat, ctx') = ramdisk_gfeat ctx in
      if ctx.cmd.opcode == 0x06
      then (err, ctx, b')
      else if ctx.cmd.opcode == 0x0A
      then (err_feat, ctx', b)
      else (fail enosys, ctx, b)
