-- ===== src/Adm/Tests.antt =====
-- The log page 2 with a buffer of 512 bytes, and a controller that grants queues.
use xnvme.Common.{ℕ, ◌+◌, ◌*◌, ◌^◌, ◌<◌, refl, arith, Ret, value}
use xnvme.Cmd.{Ctx, Payload, cpl_status}
use xnvme.Queue.{fresh_ctx}
use xnvme.Adm.{log_offset, prep_adm_log}
use xnvme.Adm.Commands.{IsGranting}
use xnvme.Adm.Log.{prep_adm_log-offset_lost}

prep_adm_log-offset_lost_example :
    log_offset (prep_adm_log 2 3 268435456 1 1 512 (fresh_ctx 0)).cmd < 268435456
prep_adm_log-offset_lost_example =
    prep_adm_log-offset_lost 2 3 268435456 1 1 512 (fresh_ctx 0) (omega arith) (omega arith)

-- A controller that grants 64 submission queues and 32 completion queues.
abbrev granting : Ctx → Payload → ℕ → Ret × Ctx × ℕ
granting c pl w = (value 0, record (fresh_ctx 0) { cdw0 = 63 + 31 * 2 ^ 16 }, w)

granting-IsGranting : IsGranting granting 64 32
unfolding cpl_status
granting-IsGranting = record { answers = λ c w is fid sel. (refl, refl, refl) }
