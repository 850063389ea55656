-- ===== src/Geo/Identify.antt =====
-- lib/xnvme_dev.c: how the identify data of a device is read, in host memory.
use xnvme.Common.{
  ℕ, ◌+◌, ◌*◌, Bool, true, not, ◌&&◌, ◌||◌, ◌==◌, if◌then◌else◌, get_bits, Option, none, some, Ret,
  value, fail, eio, errno_of, is_err,
}
use xnvme.Cmd.{Ctx, Payload, cmd_sync, cpl_status}
use xnvme.Mem.{Mem}
use xnvme.Queue.{fresh_ctx}
use xnvme.Geo.{Csi, Idfy, csi_nvm, csi_zoned, csi_fs}
use xnvme.Adm.Commands.{adm_idfy_ctrlr, adm_idfy_ctrlr_csi, adm_idfy_ns, adm_idfy_ns_csi}
use xnvme.Znd.Fetch.{load_le}

-- The fields of `struct xnvme_dev` that identifying fills: `ident.csi`, `id` and `idcss`.
pub record Device : Type 0 where
  pub csi : Csi
  pub id_ctrlr : Mem
  pub id_ns : Mem
  pub idcss_ctrlr : Mem
  pub idcss_ns : Mem

-- The fields of these structures that the geometry is derived from.
unfoldable pub idfy_data : Device → Idfy
unfolding load_le
idfy_data dev = record {
  nsze = load_le 8 0 dev.id_ns;
  format = get_bits (dev.id_ns 26) 0 4;
  extended = get_bits (dev.id_ns 26) 4 1 == 1;
  lbaf_ds = λ f. dev.id_ns (128 + 4 * f + 2);
  lbaf_ms = λ f. load_le 2 (128 + 4 * f) dev.id_ns;
  dps_pit = get_bits (dev.id_ns 29) 0 3;
  dps_md_start = get_bits (dev.id_ns 29) 3 1;
  lbafe_zsze = λ f. load_le 8 (2816 + 16 * f) dev.idcss_ns;
  elbaf_pif = λ f. get_bits (load_le 4 (12 + 4 * f) dev.idcss_ns) 7 2;
  fs_nuse = load_le 8 16 dev.idcss_ns;
  extended_lba_formats = get_bits (load_le 4 96 dev.id_ctrlr) 15 1 == 1;
  mdts = dev.id_ctrlr 77;
}

-- A buffer behind xnvme_buf_clear()
abbrev pub cleared : Mem
cleared a = 0

-- xnvme_cmd_ctx_from_dev()
abbrev pub dev_ctx : Ctx
dev_ctx = record (fresh_ctx 0) { opts = cmd_sync }

-- What the structures of a command set must hold to be taken.
abbrev pub any_data : Mem → Bool
any_data b = true

unfoldable pub zoned_ns : Mem → Bool
unfolding load_le
zoned_ns ns = not (load_le 8 2816 ns == 0)

unfoldable pub fs_ctrlr : Mem → Bool
fs_ctrlr ctrlr = (ctrlr 4089 == 0xAC) && (ctrlr 4090 == 0xDC)

unfoldable pub fs_ns : Mem → Bool
unfolding load_le
fs_ns ns =
    not (load_le 8 0 ns == 0)
    && (not (load_le 8 8 ns == 0) && ((ns 4094 == 0xAC) && (ns 4095 == 0xDC)))

abbrev pub or_else : Option Device → Device → Device
or_else (some d) e = d
or_else none e = e

-- The admin function of the backend, with the buffer as its world; the two buffers are at `p` and `q`.
module _ (admin : Ctx → Payload → Mem → Ret × Ctx × Mem) (nsid p q : ℕ) where
  -- One attempt of _dev_idfy_csi(), by the number of the command set. None: no positive response.
  unfoldable pub try_csi : ℕ → Csi → (Mem → Bool) → (Mem → Bool) → Device → Option Device
  unfolding adm_idfy_ctrlr_csi adm_idfy_ns_csi
  try_csi nr csi ctrlr_ok ns_ok dev =
      let (err, c, ctrlr) = adm_idfy_ctrlr_csi admin nr p dev_ctx cleared in
      let (err_ns, c_ns, ns) = adm_idfy_ns_csi admin nsid nsid nr q dev_ctx cleared in
      if is_err err || cpl_status c || not (ctrlr_ok ctrlr)
      then none
      else if is_err err_ns || cpl_status c_ns || not (ns_ok ns)
      then none
      else some (record dev { csi = csi; idcss_ctrlr = ctrlr; idcss_ns = ns })

  -- _dev_idfy_csi(), whose result _dev_idfy() ignores
  unfoldable pub dev_idfy_csi : Device → Device
  unfolding try_csi zoned_ns fs_ctrlr fs_ns
  dev_idfy_csi dev = or_else (try_csi 0x2 csi_zoned any_data zoned_ns dev) (
      or_else (try_csi 0x1F csi_fs fs_ctrlr fs_ns dev)
        (or_else (try_csi 0x0 csi_nvm any_data any_data dev) dev))

  -- _dev_idfy(): `allocated` tells whether both allocations give a buffer, and `errno` what the
  -- one that fails leaves there.
  unfoldable pub dev_idfy : Bool → Bool → ℕ → Device → Ret × Device
  unfolding dev_idfy_csi adm_idfy_ctrlr adm_idfy_ns
  dev_idfy is_ctrlr allocated errno dev =
      let (err, c, ctrlr) = adm_idfy_ctrlr admin p dev_ctx cleared in
      let (err_ns, c_ns, ns) = adm_idfy_ns admin nsid nsid q dev_ctx cleared in
      let dev1 : Device = record dev { id_ctrlr = ctrlr } in
      if not allocated
      then (fail (errno_of errno), dev)
      else if is_err err || cpl_status c
      then (if is_err err then err else fail eio, dev)
      else if is_ctrlr
      then (value 0, dev1)
      else if is_err err_ns || cpl_status c_ns
      then (if is_err err_ns then err_ns else fail eio, dev1)
      else (value 0, dev_idfy_csi (record dev1 { id_ns = ns }))
