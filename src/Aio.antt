-- ===== src/Aio.antt =====
-- lib/xnvme_be_cbi_async_posix.c: asynchronous commands run by the aio functions of POSIX.
pub mod Slots
pub mod Held
pub mod Inv
mod Tests
use xnvme.Common.{
  ℕ, zero, suc, ◌+◌, ◌-◌, ◌%◌, ◌^◌, Bool, true, false, not, ◌&&◌, ◌||◌, List, [], ◌∷◌, ◌++◌, Option,
  none, some, ◌==◌, ltb, if◌then◌else◌, add32, sub32, shl64, Ret, value, fail, enosys, enomem,
  errno_of,
}
use xnvme.Cmd.{Cmd, Ctx, Payload, slba, update}
use xnvme.Queue.{Queue}
use xnvme.Queue.Pass.{SyncOps, AsyncOps, Act, run_acts}
use xnvme.Ramdisk.{IoOpc, io_opc, write, read, fs_write, fs_read, has_meta}

-- `struct posix_request`: `slot` is its index in `reqs_storage` and stands for its control block;
-- `ctx` 0 is also NULL.
pub record Request : Type 0 where
  pub slot : ℕ
  pub ctx : ℕ

-- `struct posix_queue`, with a mark for a NULL request that has been followed: from there on the
-- state means nothing.
pub record PosixQueue : Type 0 where
  pub reqs_ready : List Request
  pub reqs_outstanding : List Request
  pub null_followed : Bool

-- The aio functions, by the slot of the control block. `read` and `write` get the buffer, the
-- size and the offset, and give 0 or the `errno` behind a failure. `error` is aio_error(), which
-- lets time pass; `return_` is aio_return(): its result, none for -1, and the `errno` behind it.
pub record PosixAio (W : Type 0) : Type 0 where
  pub read : ℕ → ℕ → ℕ → ℕ → W → ℕ × W
  pub write : ℕ → ℕ → ℕ → ℕ → W → ℕ × W
  pub error : ℕ → W → ℕ × W
  pub return_ : ℕ → W → Option ℕ × ℕ × W

-- `EINPROGRESS` on Linux
abbrev pub einprogress : ℕ
einprogress = 115

-- The loop of posix_init() from request `i` on, with `n` rounds left.
unfoldable pub fill_ready : ℕ → ℕ → List Request → List Request
fill_ready zero i rs = rs
fill_ready (suc n) i rs = fill_ready n (i + 1) (record { slot = i; ctx = 0 } ∷ rs)

-- TAILQ_REMOVE() of the request with that slot.
unfoldable pub tailq_remove : ℕ → List Request → List Request
tailq_remove slot [] = []
tailq_remove slot (r ∷ rs) = if r.slot == slot then rs else r ∷ tailq_remove slot rs

-- `max` as posix_poke() corrects it
abbrev pub aio_max : ℕ → ℕ → ℕ
aio_max max outstanding =
    let max' = if max == 0 then outstanding else max in
    if ltb max' outstanding then max' else outstanding

module _ {W : Type 0} where
  -- posix_init(): `has_memory` is whether calloc() succeeds.
  unfoldable pub posix_init : Bool → Queue PosixQueue W → Ret × Queue PosixQueue W
  unfolding fill_ready
  posix_init has_memory q =
      if has_memory
      then (
        value 0,
        record q {
          be = record {
            reqs_ready = fill_ready q.capacity 0 [];
            reqs_outstanding = [];
            null_followed = false;
          };
        },
      )
      else (fail enomem, q)

module _ {W : Type 0} where
  -- The part of posix_cmd_io() behind its switch, for the request `r` at the head of the ready
  -- ones, with `rs` behind it.
  unfoldable pub start_request :
      ℕ → Request → List Request → Queue PosixQueue W → Option (ℕ × W) → Ret × Queue PosixQueue W
  start_request p r rs q none =
      (fail enosys, record q { be = record q.be { reqs_ready = record r { ctx = p } ∷ rs } })
  start_request p r rs q (some (err, w)) =
      if not (err == 0)
      then (
        fail (errno_of err),
        record q { be = record q.be { reqs_ready = record r { ctx = p } ∷ rs }; world = w },
      )
      else (
        value 0,
        record q {
          be = record q.be {
            reqs_ready = rs;
            reqs_outstanding = q.be.reqs_outstanding ++ record r { ctx = p } ∷ [];
          };
          outstanding = add32 q.outstanding 1;
          world = w;
        },
      )

  -- A walk that starts from the first of these requests: `ran` is what it comes to.
  unfoldable pub or_null :
      List Request → Queue PosixQueue W → Ret × Queue PosixQueue W → Ret × Queue PosixQueue W
  or_null [] q ran = (value 0, record q { be = record q.be { null_followed = true } })
  or_null (r ∷ rs) q ran = ran

-- `ssw` is the shift of the device's geometry.
module _ {W : Type 0} (aio : PosixAio W) (ssw : ℕ) where
  -- The switch of posix_cmd_io(): none for an opcode that it does not support.
  unfoldable pub aio_switch : IoOpc → ℕ → Cmd → Payload → W → Option (ℕ × W)
  aio_switch write slot c pl w = some (aio.write slot pl.buf pl.nbytes (shl64 (slba c) ssw) w)
  aio_switch read slot c pl w = some (aio.read slot pl.buf pl.nbytes (shl64 (slba c) ssw) w)
  aio_switch fs_write slot c pl w = some (aio.write slot pl.buf pl.nbytes (slba c) w)
  aio_switch fs_read slot c pl w = some (aio.read slot pl.buf pl.nbytes (slba c) w)
  aio_switch _ slot c pl w = none

  -- posix_cmd_io()
  unfoldable pub posix_cmd_io : ℕ → Payload → Queue PosixQueue W → Ret × Queue PosixQueue W
  unfolding start_request aio_switch io_opc
  posix_cmd_io p pl q = if has_meta pl then (fail enosys, q) else elim q.be.reqs_ready [
    | [] ↦ (fail enosys, record q { be = record q.be { null_followed = true } })
    | r ∷ rs ↦
        start_request p r rs q
          (aio_switch (io_opc (q.ctxs p).cmd.opcode) r.slot (q.ctxs p).cmd pl q.world)
  ]

  -- The interface, with xnvme_be_nosys_queue_cmd_iov() for vectors.
  abbrev pub posix_async : AsyncOps PosixQueue W
  posix_async = record { cmd_io = posix_cmd_io; cmd_iov = λ p pl q. (fail enosys, q) }

  -- The walk of posix_poke() from a request on to the first that is not in progress, with what
  -- aio_error() says of it.
  unfoldable pub first_done : List Request → W → Option (Request × ℕ) × W
  first_done [] w = (none, w)
  first_done (r ∷ rs) w =
      let (err, w') = aio.error r.slot w in
      let rest = first_done rs w' in if err == einprogress then rest else (some (r, err), w')

-- `react p q` is what the callback of the context at `p` does when it is called in the state `q`.
module _ {W : Type 0} (aio : PosixAio W) (ssw : ℕ) (sync : SyncOps W)
    (react : ℕ → Queue PosixQueue W → List (Act W)) where
  -- The completion of a request in its context.
  unfoldable pub fill_completion : Request → ℕ → Queue PosixQueue W → Queue PosixQueue W
  fill_completion r err q =
      let (res, errno, w) =
        (let x : Option ℕ × ℕ × W =
            if err == 0 then aio.return_ r.slot q.world else (some 0, 0, q.world) in
          x) in
      let c : Ctx = q.ctxs r.ctx in
      let sc : ℕ = if err == 0 then errno else err in
      let failed : Ctx = record c { cdw0 = 0; sc = sc % 256; sct = 7 } in
      let c' : Ctx =
        if not (err == 0)
        then failed
        else elim res [ none ↦ failed | some n ↦ record c { cdw0 = n % 2 ^ 32 } ] in
      record q { ctxs = update q.ctxs r.ctx c'; world = w }

  abbrev pub aio_call_back : Request → Queue PosixQueue W → Queue PosixQueue W
  aio_call_back r q = run_acts (posix_async aio ssw) sync (react r.ctx q) q

  -- The request goes back to the ready ones.
  unfoldable pub reuse : Request → Queue PosixQueue W → Queue PosixQueue W
  unfolding tailq_remove
  reuse r q = record q {
    outstanding = sub32 q.outstanding 1;
    be = record q.be {
      reqs_outstanding = tailq_remove r.slot q.be.reqs_outstanding;
      reqs_ready = q.be.reqs_ready ++ record r { ctx = 0 } ∷ [];
    };
  }

  -- The loop of posix_poke() with `n` completions to go: each time it starts from the head of the
  -- outstanding requests again.
  unfoldable pub aio_loop : ℕ → ℕ → Queue PosixQueue W → ℕ × Queue PosixQueue W
  unfolding first_done fill_completion run_acts reuse
  aio_loop zero completed q = (completed, q)
  aio_loop (suc n) completed q =
      let (found, w) = first_done aio ssw q.be.reqs_outstanding q.world in
      let q1 : Queue PosixQueue W = record q { world = w } in
      elim found [
        | none ↦ (completed, q1)
        | some (r, err) ↦
            aio_loop n (completed + 1) (reuse r (aio_call_back r (fill_completion r err q1)))
      ]

  -- posix_poke()
  unfoldable pub posix_poke : ℕ → Queue PosixQueue W → Ret × Queue PosixQueue W
  unfolding aio_loop or_null
  posix_poke max q =
      let (completed, q') = aio_loop (aio_max max q.outstanding) 0 q in
      if q.outstanding == 0
      then (value 0, q)
      else or_null q.be.reqs_outstanding q (value completed, q')
