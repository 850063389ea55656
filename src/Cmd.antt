-- ===== src/Cmd.antt =====
-- The NVMe submission-queue entry and the command context that carries it
-- (include/libxnvme_spec.h, include/libxnvme_cmd.h, include/xnvme_queue.h).
use xnvme.Common.{
  ℕ, ◌+◌, ◌*◌, ◌/◌, ◌%◌, ◌^◌, Bool, not, ◌||◌, ◌==◌, if◌then◌else◌, get_bits, put_bits,
}

-- `struct xnvme_spec_cmd`: the opcode, the namespace identifier and the command dwords 10 to 15,
-- which the accessors of the union read as fields of bits. The other dwords are never read here.
pub record Cmd : Type 0 where
  pub opcode : ℕ
  pub nsid : ℕ
  pub cdw10 : ℕ
  pub cdw11 : ℕ
  pub cdw12 : ℕ
  pub cdw13 : ℕ
  pub cdw14 : ℕ
  pub cdw15 : ℕ

-- The 64 bits of dwords 10 and 11: `nvm.slba`, `write_zeroes.slba`, `compare.slba`,
-- `scopy.sdlba`, `znd.append.zslba`.
abbrev pub slba : Cmd → ℕ
slba c = c.cdw10 + c.cdw11 * 2 ^ 32

abbrev pub set_slba : ℕ → Cmd → Cmd
set_slba v c = record c { cdw10 = v % 2 ^ 32; cdw11 = v / 2 ^ 32 % 2 ^ 32 }

-- The low 16 bits of dword 12: `nvm.nlb`, `write_zeroes.nlb`, `compare.nlb`, `znd.append.nlb`.
abbrev pub nlb : Cmd → ℕ
nlb c = get_bits c.cdw12 0 16

abbrev pub set_nlb : ℕ → Cmd → Cmd
set_nlb v c = record c { cdw12 = put_bits c.cdw12 0 16 v }

-- The low 8 bits of dword 12: `scopy.nr`.
abbrev pub scopy_nr : Cmd → ℕ
scopy_nr c = get_bits c.cdw12 0 8

abbrev pub set_scopy_nr : ℕ → Cmd → Cmd
set_scopy_nr v c = record c { cdw12 = put_bits c.cdw12 0 8 v }

-- `struct xnvme_cmd_ctx`: the command, the status of its completion, `cpl.cdw0`, the command
-- options and the callback with its argument. A context lives at a pointer; the queue and the
-- device that it names are those of the state it is part of.
pub record Ctx : Type 0 where
  pub cmd : Cmd
  pub cdw0 : ℕ
  pub sc : ℕ
  pub sct : ℕ
  pub opts : ℕ
  pub cb : ℕ
  pub cb_arg : ℕ
  pub id : ℕ

-- xnvme_cmd_ctx_cpl_status(): whether the completion reports an error.
unfoldable pub cpl_status : Ctx → Bool
cpl_status c = not (c.sc == 0) || not (c.sct == 0)

-- The arguments of a command function besides the context: pointers and sizes of the data and
-- of the metadata, and the number of vectors of a vectored call. Address 0 is NULL.
pub record Payload : Type 0 where
  pub buf : ℕ
  pub nbytes : ℕ
  pub vec_cnt : ℕ
  pub meta : ℕ
  pub meta_nbytes : ℕ

-- `enum xnvme_cmd_opts`: XNVME_CMD_SYNC and XNVME_CMD_ASYNC.
abbrev pub cmd_sync : ℕ
cmd_sync = 1

abbrev pub cmd_async : ℕ
cmd_async = 2

-- `opts & XNVME_CMD_MASK & XNVME_CMD_MASK_IOMD`: masks of four and of two ones.
abbrev pub io_mode : Ctx → ℕ
io_mode c = c.opts % 16 % 4

-- `opts & XNVME_CMD_ASYNC`
abbrev pub is_async : Ctx → Bool
is_async c = get_bits c.opts 1 1 == 1

-- A store with one cell written.
abbrev pub update {ℓ} : {A : Type ℓ} → (ℕ → A) → ℕ → A → ℕ → A
update f p v q = if q == p then v else f q
