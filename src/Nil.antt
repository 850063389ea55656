-- ===== src/Nil.antt =====
-- lib/xnvme_be_cbi_async_nil.c: a queue that completes every command without running it.
pub mod Reap
pub mod Resubmit
mod Tests
use xnvme.Common.{
  ℕ, zero, suc, ◌+◌, ◌-◌, Bool, true, false, List, [], ◌∷◌, Option, none, some, ◌==◌, ltb,
  if◌then◌else◌, add32, sub32, Ret, value, fail, einval, eio, enosys,
}
use xnvme.Cmd.{Ctx, Payload, update}
use xnvme.Queue.{Queue}
use xnvme.Queue.Pass.{SyncOps, AsyncOps, Act, run_acts}

-- XNVME_BE_CBI_ASYNC_NIL_CTX_DEPTH_MAX
abbrev pub depth_max : ℕ
depth_max = 29

-- `struct nil_queue`: the array `ctx`, none for NULL.
pub record Slots : Type 0 where
  pub ctx : ℕ → Option ℕ

-- `max` as nil_poke() corrects it
abbrev pub poke_max : ℕ → ℕ → ℕ
poke_max max outstanding =
    let max' = if max == 0 then outstanding else max in
    if ltb outstanding max' then outstanding else max'

module _ {W : Type 0} where
  -- nil_init(): the memory of the queue is zeroed by its caller.
  unfoldable pub nil_init : Queue Slots W → Ret × Queue Slots W
  nil_init q = if ltb depth_max q.capacity then (fail einval, q) else (value 0, q)

  -- nil_cmd_io()
  unfoldable pub nil_cmd_io : ℕ → Payload → Queue Slots W → Ret × Queue Slots W
  nil_cmd_io p pl q = (
    value 0,
    record q {
      be = record { ctx = update q.be.ctx q.outstanding (some p) };
      outstanding = add32 q.outstanding 1;
    },
  )

  -- xnvme_be_nosys_queue_cmd_iov()
  unfoldable pub nosys_cmd_iov : ℕ → Payload → Queue Slots W → Ret × Queue Slots W
  nosys_cmd_iov p pl q = (fail enosys, q)

  abbrev pub nil_async : AsyncOps Slots W
  nil_async = record { cmd_io = nil_cmd_io; cmd_iov = nosys_cmd_iov }

-- `react p q` is what the callback of the context at `p` does when it is called in the state `q`.
module _ {W : Type 0} (sync : SyncOps W) (react : ℕ → Queue Slots W → List (Act W)) where
  -- A round that finds the context `p` in slot `cur`.
  unfoldable pub reap : ℕ → ℕ → Queue Slots W → Queue Slots W
  unfolding run_acts nil_cmd_io nosys_cmd_iov
  reap cur p q =
      let cleared : Queue Slots W = record q {
        ctxs = update q.ctxs p (record (q.ctxs p) { sc = 0 });
      } in
      let called : Queue Slots W = run_acts nil_async sync (react p cleared) cleared in
      record called { be = record { ctx = update called.be.ctx cur none } }

  -- The loop of nil_poke() and what follows it, with `n` rounds left and `completed` behind it.
  unfoldable pub nil_loop : ℕ → ℕ → Queue Slots W → Ret × Queue Slots W
  unfolding reap
  nil_loop zero completed q =
      (value completed, record q { outstanding = sub32 q.outstanding completed })
  nil_loop (suc n) completed q =
      let cur : ℕ = sub32 (sub32 q.outstanding completed) 1 in
      elim (q.be.ctx cur) [
        | none ↦ (fail eio, record q { outstanding = sub32 q.outstanding (completed + 1) })
        | some p ↦ nil_loop n (completed + 1) (reap cur p q)
      ]

  -- nil_poke()
  unfoldable pub nil_poke : ℕ → Queue Slots W → Ret × Queue Slots W
  unfolding nil_loop
  nil_poke max q = nil_loop (poke_max max q.outstanding) 0 q
