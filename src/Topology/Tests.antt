-- ===== src/Topology/Tests.antt =====
-- A reset that the controller refuses by the type of its status alone.
use xnvme.Common.{ℕ, ◌≡◌, ◌↔◌, refl, value, Ret}
use xnvme.Cmd.{Ctx, Payload, cpl_status}
use xnvme.Queue.{zero_cmd}
use xnvme.Nvm.{data_payload}
use xnvme.Topology.{dev_ctx, pseudo_result, run_pseudo, subsystem_reset, run_pseudo-decides}

abbrev refusing : Ctx → Payload → ℕ → Ret × Ctx × ℕ
refusing c pl w = (value 0, record c { sc = 0; sct = 7 }, w)

run_pseudo-decides_example :
    let (err, c, w') =
      refusing (record dev_ctx { cmd = record zero_cmd { opcode = 0x11 } }) (data_payload 0 0) 5 in
    ((run_pseudo refusing 0x11 (data_payload 0 0) 5).0 ≡ value 0) ↔ ((err ≡ value 0) × (c.sc ≡ 0))
run_pseudo-decides_example = run_pseudo-decides refusing 0x11 (data_payload 0 0) 5

-- Its result is a success.
refused-success : (subsystem_reset refusing 5).0 ≡ value 0
unfolding subsystem_reset run_pseudo pseudo_result cpl_status
refused-success = refl
