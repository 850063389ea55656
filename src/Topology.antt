-- ===== src/Topology.antt =====
-- lib/xnvme_topology.c: resets, rescanning and registers, by pseudo commands.
mod Tests
use xnvme.Common.{
  ℕ, zero, suc, ◌≡◌, ◌↔◌, ◌⊎◌, inl, inr, refl, Bool, true, false, ◌==◌, if◌then◌else◌, Ret, value,
  fail, errno_of, is_err, arith,
}
use xnvme.Cmd.{Ctx, Payload, cpl_status}
use xnvme.Queue.{zero_cmd}
use xnvme.Nvm.{data_payload}

-- xnvme_cmd_ctx_from_dev(): a cleared context of synchronous mode.
abbrev pub dev_ctx : Ctx
dev_ctx = record { cmd = zero_cmd; cdw0 = 0; sc = 0; sct = 0; opts = 1; cb = 0; cb_arg = 0; id = 0 }

-- `-ctx.cpl.status.sc`
abbrev pub neg_sc : ℕ → Ret
neg_sc sc = if sc == 0 then value 0 else fail (errno_of sc)

-- The result, from what xnvme_cmd_pass_pseudo() gives.
unfoldable pub pseudo_result : {W : Type 0} → Ret × Ctx × W → Ret × W
unfolding cpl_status
pseudo_result (err, c, w) =
    if is_err err then (err, w) else if cpl_status c then (neg_sc c.sc, w) else (value 0, w)

pseudo_result-decides :
    {W : Type 0} (r : Ret × Ctx × W)
    → ((pseudo_result r).0 ≡ value 0) ↔ ((r.0 ≡ value 0) × (r.1.sc ≡ 0))
unfolding pseudo_result cpl_status
pseudo_result-decides (value zero, c, w) = ground arith
pseudo_result-decides (value (suc n), c, w) = ground arith
pseudo_result-decides (fail e, c, w) = ground arith

-- `pass` is xnvme_cmd_pass_pseudo().
module _ {W : Type 0} (pass : Ctx → Payload → W → Ret × Ctx × W) where
  -- The body that the functions share: the pseudo command of an opcode, and its errors.
  unfoldable pub run_pseudo : ℕ → Payload → W → Ret × W
  unfolding pseudo_result
  run_pseudo opcode pl w =
      pseudo_result (pass (record dev_ctx { cmd = record zero_cmd { opcode = opcode } }) pl w)

  unfoldable pub subsystem_reset : W → Ret × W
  unfolding run_pseudo
  subsystem_reset = run_pseudo 0x11 (data_payload 0 0)

  unfoldable pub controller_reset : W → Ret × W
  unfolding run_pseudo
  controller_reset = run_pseudo 0x10 (data_payload 0 0)

  unfoldable pub namespace_rescan : W → Ret × W
  unfolding run_pseudo
  namespace_rescan = run_pseudo 0x12 (data_payload 0 0)

  -- xnvme_controller_get_registers(), with `nbytes` the size of the registers.
  unfoldable pub controller_get_registers : ℕ → ℕ → W → Ret × W
  unfolding run_pseudo
  controller_get_registers nbytes bar = run_pseudo 0x02 (data_payload bar nbytes)

  -- xnvme_subsystem_reset(), and the other functions with the same body, return 0 just where
  -- passing the pseudo command returns 0 and the status code of its completion is 0: a
  -- completion that reports an error by the type of its status alone counts as a success.
  pub run_pseudo-decides :
      (opcode : ℕ) (pl : Payload) (w : W)
      → let (err, c, w') =
          pass (record dev_ctx { cmd = record zero_cmd { opcode = opcode } }) pl w in
        ((run_pseudo opcode pl w).0 ≡ value 0) ↔ ((err ≡ value 0) × (c.sc ≡ 0))
  unfolding run_pseudo
  run_pseudo-decides opcode pl w =
      pseudo_result-decides
        (pass (record dev_ctx { cmd = record zero_cmd { opcode = opcode } }) pl w)
