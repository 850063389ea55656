-- ===== src/Queue/Pass.antt =====
-- lib/xnvme_cmd.c: passing a command to the backend, and what a completion callback may do.
use xnvme.Common.{
  ℕ, true, false, Option, none, some, List, [], ◌∷◌, ◌==◌, ltb, if◌then◌else◌, Ret, fail, einval,
  ebusy, ◌≡◌, ◌≢◌, ==_ne,
}
use xnvme.Cmd.{Ctx, Payload, cmd_async, cmd_sync, io_mode, is_async, update}
use xnvme.Queue.{Queue, get_cmd_ctx, put_cmd_ctx}

-- `struct xnvme_be_sync`: a command function gets the context, its other arguments and the world,
-- and returns its `int`, the context as it leaves it and the world.
pub record SyncOps (W : Type 0) : Type 0 where
  pub cmd_io : Ctx → Payload → W → Ret × Ctx × W
  pub cmd_iov : Ctx → Payload → W → Ret × Ctx × W

-- `struct xnvme_be_async`: the two submission functions, given the pointer of a context.
pub record AsyncOps (B W : Type 0) : Type 0 where
  pub cmd_io : ℕ → Payload → Queue B W → Ret × Queue B W
  pub cmd_iov : ℕ → Payload → Queue B W → Ret × Queue B W

-- One call by the application: a context taken from the pool or put back, a context prepared, its
-- own memory changed, a command submitted with and without vectors.
pub data Act (W : Type 0) : Type 0 where
  get_ctx : Act W
  put_ctx : ℕ → Act W
  prepare : ℕ → Ctx → Act W
  touch : W → Act W
  submit : ℕ → Payload → Act W
  submit_iov : ℕ → Payload → Act W

module _ {B W : Type 0} (async : AsyncOps B W) (sync : SyncOps W) where
  abbrev run_sync : (Ctx → Payload → W → Ret × Ctx × W) → ℕ → Payload → Queue B W → Ret × Queue B W
  run_sync f p pl q =
      let (err, c, w) = f (q.ctxs p) pl q.world in
      (err, record q { ctxs = update q.ctxs p c; world = w })

  -- xnvme_cmd_pass()
  unfoldable pub cmd_pass : ℕ → Payload → Queue B W → Ret × Queue B W
  cmd_pass p pl q =
      if io_mode (q.ctxs p) == cmd_async
      then (if q.outstanding == q.capacity then (fail ebusy, q) else async.cmd_io p pl q)
      else if io_mode (q.ctxs p) == cmd_sync
      then run_sync sync.cmd_io p pl q
      else (fail einval, q)

  -- With room in its queue an asynchronous command goes to the backend.
  pub cmd_pass-async :
      (p : ℕ) (pl : Payload) (q : Queue B W)
      → io_mode (q.ctxs p) ≡ cmd_async
      → q.outstanding ≢ q.capacity
      → cmd_pass p pl q ≡ async.cmd_io p pl q
  unfolding cmd_pass
  cmd_pass-async p pl q mode room =
      let is_async : (io_mode (q.ctxs p) == cmd_async) ≡ true = rw mode in
      let open_ : (q.outstanding == q.capacity) ≡ false = ==_ne _ _ room in
      rw (cmd_pass, is_async, open_)

  -- xnvme_cmd_pass_iov()
  unfoldable pub cmd_pass_iov : ℕ → Payload → Queue B W → Ret × Queue B W
  cmd_pass_iov p pl q =
      if io_mode (q.ctxs p) == cmd_async
      then (if q.outstanding == q.capacity then (fail ebusy, q) else async.cmd_iov p pl q)
      else if io_mode (q.ctxs p) == cmd_sync
      then run_sync sync.cmd_iov p pl q
      else (fail einval, q)

  -- xnvme_cmd_passv(): `mvec` is the base of its first vector, none for NULL.
  unfoldable pub cmd_passv : ℕ → Payload → Option ℕ → ℕ → Queue B W → Ret × Queue B W
  unfolding cmd_pass_iov
  cmd_passv p pl mvec mvec_cnt q =
      if ltb 1 mvec_cnt
      then (fail einval, q)
      else cmd_pass_iov p (record pl { meta = elim mvec [ none ↦ 0 | some base ↦ base ] }) q

  unfoldable pub run_act : Act W → Queue B W → Queue B W
  unfolding get_cmd_ctx put_cmd_ctx
  run_act get_ctx q = (get_cmd_ctx q).1
  run_act (put_ctx p) q = (put_cmd_ctx p q).1
  run_act (prepare p c) q = record q { ctxs = update q.ctxs p c }
  run_act (touch w) q = record q { world = w }
  run_act (submit p pl) q = (cmd_pass p pl q).1
  run_act (submit_iov p pl) q = (cmd_pass_iov p pl q).1

  unfoldable pub run_acts : List (Act W) → Queue B W → Queue B W
  run_acts [] q = q
  run_acts (a ∷ as_) q = run_acts as_ (run_act a q)

-- xnvme_cmd_pass_admin() and xnvme_cmd_pass_pseudo(), for the admin function of a backend.
unfoldable pub cmd_pass_admin :
    {W : Type 0} → (Ctx → Payload → W → Ret × Ctx × W) → Ctx → Payload → W → Ret × Ctx × W
cmd_pass_admin cmd_admin c pl w = if is_async c then (fail einval, c, w) else cmd_admin c pl w
