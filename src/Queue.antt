-- ===== src/Queue.antt =====
-- lib/xnvme_queue.c and include/xnvme_queue.h: a command queue and its pool of command contexts.
pub mod Pool
pub mod Pow
pub mod Pass
pub mod Drain
mod Tests
use xnvme.Common.{
  ℕ, zero, suc, ◌+◌, ◌-◌, ◌<◌, Bool, not, ◌&&◌, List, [], ◌∷◌, Option, none, some, ◌==◌, ltb,
  if◌then◌else◌, bit_and, Ret, value, fail, is_err, einval, enomem,
}
use xnvme.Cmd.{Cmd, Ctx, cmd_async, update}

-- `struct xnvme_queue`. `pool` holds the pointers of the free contexts, the head of the SLIST
-- first; the contexts themselves are behind their pointers in `ctxs`. `be` is the backend's part
-- (`be_rsvd`), and `world` what its device and the callbacks work on: memory, media.
pub record Queue (B W : Type 0) : Type 0 where
  pub capacity : ℕ
  pub outstanding : ℕ
  pub pool : List ℕ
  pub ctxs : ℕ → Ctx
  pub be : B
  pub world : W

-- include/libxnvme_util.h: xnvme_is_pow2(). `val - 1` is not reached for 0.
unfoldable pub is_pow2 : ℕ → Bool
is_pow2 n = not (n == 0) && bit_and n (n - 1) == 0

abbrev pub zero_cmd : Cmd
zero_cmd = record {
  opcode = 0;
  nsid = 0;
  cdw10 = 0;
  cdw11 = 0;
  cdw12 = 0;
  cdw13 = 0;
  cdw14 = 0;
  cdw15 = 0;
}

-- Callback 0 is `callback_noop`, and argument 0 is NULL.
abbrev pub fresh_ctx : ℕ → Ctx
fresh_ctx i = record {
  cmd = zero_cmd;
  cdw0 = 0;
  sc = 0;
  sct = 0;
  opts = cmd_async;
  cb = 0;
  cb_arg = 0;
  id = i;
}

-- The loop of xnvme_queue_set_cb() from context `i` on, with `n` rounds left.
unfoldable pub set_cb_from : ℕ → ℕ → ℕ → ℕ → (ℕ → Ctx) → ℕ → Ctx
set_cb_from zero i cb arg cs = cs
set_cb_from (suc n) i cb arg cs =
    set_cb_from n (i + 1) cb arg (update cs i (record (cs i) { cb = cb; cb_arg = arg }))

module _ {B W : Type 0} where
  -- The loop of xnvme_queue_init() from round `i` on, with `n` rounds left. The context of index
  -- `i` is at the pointer `i`.
  unfoldable pub init_pool : ℕ → ℕ → Queue B W → Queue B W
  init_pool zero i q = q
  init_pool (suc n) i q =
      init_pool n (i + 1) (record q { ctxs = update q.ctxs i (fresh_ctx i); pool = i ∷ q.pool })

  -- xnvme_queue_init(): `blank` is the zeroed memory of calloc(), none where it fails, with
  -- `be_init` the backend's init(). The queue is none where the caller gets no queue.
  unfoldable pub queue_init :
      ℕ → Option (Queue B W) → (Queue B W → Ret × Queue B W) → Ret × Option (Queue B W)
  queue_init capacity blank be_init =
      if not (is_pow2 capacity && ltb capacity 4096) then (fail einval, none) else alloc_cases blank
    where
      started : Ret × Queue B W → Ret × Option (Queue B W)
      started (err, q) = if is_err err then (err, none) else (value 0, some q)

      alloc_cases : Option (Queue B W) → Ret × Option (Queue B W)
      alloc_cases none = (fail enomem, none)
      alloc_cases (some b) =
          started (be_init (init_pool (capacity + 1) 0 (record b { capacity = capacity })))

  -- xnvme_queue_get_cmd_ctx(): none is NULL, with errno set to ENOMEM.
  unfoldable pub get_cmd_ctx : Queue B W → Option ℕ × Queue B W
  get_cmd_ctx q = elim q.pool [ [] ↦ (none, q) | p ∷ ps ↦ (some p, record q { pool = ps }) ]

  -- xnvme_queue_put_cmd_ctx(), of a context that is not in the pool already.
  unfoldable pub put_cmd_ctx : ℕ → Queue B W → Ret × Queue B W
  put_cmd_ctx p q = (value 0, record q { pool = p ∷ q.pool })

  -- xnvme_queue_set_cb()
  unfoldable pub set_cb : ℕ → ℕ → Queue B W → Ret × Queue B W
  unfolding set_cb_from
  set_cb cb arg q = (value 0, record q { ctxs = set_cb_from (q.capacity + 1) 0 cb arg q.ctxs })

  -- xnvme_queue_get_capacity() and xnvme_queue_get_outstanding()
  unfoldable pub get_capacity : Queue B W → ℕ
  get_capacity q = q.capacity

  unfoldable pub get_outstanding : Queue B W → ℕ
  get_outstanding q = q.outstanding
