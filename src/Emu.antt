-- ===== src/Emu.antt =====
-- lib/xnvme_be_cbi_async_emu.c: asynchronous commands emulated by synchronous ones. Submission
-- puts an entry on a list; poke() runs the entries of the list through the synchronous interface.
pub mod Inv
pub mod Init
pub mod Fifo
mod Tests
use xnvme.Common.{
  ℕ, zero, suc, ◌+◌, ◌%◌, ◌^◌, Bool, true, false, List, [], ◌∷◌, ◌++◌, Option, none, some, ◌==◌,
  ltb, if◌then◌else◌, add32, sub32, Ret, value, fail, is_err, eio, sc_of,
}
use xnvme.Cmd.{Ctx, Payload, update}
use xnvme.Queue.{Queue}
use xnvme.Queue.Pass.{SyncOps, AsyncOps, Act, run_acts}

-- `struct qpair_entry`: `slot` is its index in `elm`.
pub record Entry : Type 0 where
  pub slot : ℕ
  pub ctx : ℕ
  pub payload : Payload
  pub is_vectored : Bool

-- `struct qpair`: an entry stands in one of its two lists.
pub record Qpair : Type 0 where
  pub rp : List Entry
  pub sq : List Entry
  pub capacity : ℕ

-- `malloc` and `memset`: an entry of zeros.
abbrev blank_entry : ℕ → Entry
blank_entry i = record {
  slot = i;
  ctx = 0;
  payload = record { buf = 0; nbytes = 0; vec_cnt = 0; meta = 0; meta_nbytes = 0 };
  is_vectored = false;
}

-- The loop of qpair_alloc() from entry `i` on, with `n` rounds left.
unfoldable pub fill_rp : ℕ → ℕ → List Entry → List Entry
fill_rp zero i rp = rp
fill_rp (suc n) i rp = fill_rp n (i + 1) (blank_entry i ∷ rp)

-- qpair_alloc()
unfoldable pub qpair_alloc : ℕ → Qpair
unfolding fill_rp
qpair_alloc capacity = record { rp = fill_rp capacity 0 []; sq = []; capacity = capacity }

-- The payload as an entry keeps it, in fields of type uint32_t.
abbrev pub narrow : Payload → Payload
narrow pl = record pl {
  nbytes = pl.nbytes % 2 ^ 32;
  vec_cnt = pl.vec_cnt % 2 ^ 32;
  meta_nbytes = pl.meta_nbytes % 2 ^ 32;
}

-- `max` as emu_poke() corrects it
abbrev pub poke_max : ℕ → ℕ → ℕ
poke_max max outstanding =
    let max' = if max == 0 then outstanding else max in
    if ltb outstanding max' then outstanding else max'

module _ {W : Type 0} where
  -- emu_init(): `has_memory` is whether malloc() succeeds. It returns 1 where it does not.
  unfoldable pub emu_init : Bool → Queue Qpair W → Ret × Queue Qpair W
  unfolding qpair_alloc
  emu_init has_memory q =
      if has_memory then (value 0, record q { be = qpair_alloc q.capacity }) else (value 1, q)

  -- emu_cmd_io()
  unfoldable pub emu_cmd_io : ℕ → Payload → Queue Qpair W → Ret × Queue Qpair W
  emu_cmd_io p pl q = elim q.be.rp [
    | [] ↦ (fail eio, q)
    | e ∷ rp ↦ (
      value 0,
      record q {
        be = record q.be {
          rp = rp;
          sq =
              q.be.sq
              ++ record e {
                ctx = p;
                payload = narrow (record pl { vec_cnt = 0 });
                is_vectored = false;
              }
                ∷ [];
        };
        outstanding = add32 q.outstanding 1;
      },
    )
  ]

  -- emu_cmd_iov()
  unfoldable pub emu_cmd_iov : ℕ → Payload → Queue Qpair W → Ret × Queue Qpair W
  emu_cmd_iov p pl q = elim q.be.rp [
    | [] ↦ (fail eio, q)
    | e ∷ rp ↦ (
      value 0,
      record q {
        be = record q.be {
          rp = rp;
          sq = q.be.sq ++ record e { ctx = p; payload = narrow pl; is_vectored = true } ∷ [];
        };
        outstanding = add32 q.outstanding 1;
      },
    )
  ]

  abbrev pub emu_async : AsyncOps Qpair W
  emu_async = record { cmd_io = emu_cmd_io; cmd_iov = emu_cmd_iov }

-- `sync` is the synchronous interface of the device, and `react p q` what the callback of the
-- context at `p` does when it is called in the state `q`.
module _ {W : Type 0} (sync : SyncOps W) (react : ℕ → Queue Qpair W → List (Act W)) where
  -- The command of an entry, run through the synchronous interface.
  unfoldable pub execute : Entry → Ctx → W → Ret × Ctx × W
  execute e c w = if e.is_vectored then sync.cmd_iov c e.payload w else sync.cmd_io c e.payload w

  -- On an error a status code of zero is replaced by the error.
  unfoldable pub mark : Ret → Ctx → Ctx
  mark err c = if is_err err then record c { sc = if c.sc == 0 then sc_of err else c.sc } else c

  -- The command of `e` is run and its context written back.
  unfoldable pub perform : Entry → Queue Qpair W → Queue Qpair W
  unfolding execute mark
  perform e q =
      let (err, c, w) = execute e (q.ctxs e.ctx) q.world in
      record q { ctxs = update q.ctxs e.ctx (mark err c); world = w }

  abbrev pub call_back : Entry → Queue Qpair W → Queue Qpair W
  call_back e q = run_acts emu_async sync (react e.ctx q) q

  abbrev pub recycle : Entry → Queue Qpair W → Queue Qpair W
  recycle e q = record q { be = record q.be { rp = q.be.rp ++ e ∷ [] } }

  -- A round of the loop of emu_poke(): the entry at the head of the list, `sq` behind it, is
  -- removed, run, called back and put into the request pool.
  unfoldable pub poke_round : Entry → List Entry → Queue Qpair W → Queue Qpair W
  unfolding perform run_acts
  poke_round e sq q =
      recycle e (call_back e (perform e (record q { be = record q.be { sq = sq } })))

  -- The loop of emu_poke(), with `n` rounds left and `completed` behind it. None: the list is
  -- empty, and the NULL entry is followed.
  unfoldable pub poke_loop : ℕ → ℕ → Queue Qpair W → Option (ℕ × Queue Qpair W)
  unfolding poke_round
  poke_loop zero completed q = some (completed, q)
  poke_loop (suc n) completed q = elim q.be.sq [
    | [] ↦ none
    | e ∷ sq ↦ poke_loop n (completed + 1) (poke_round e sq q)
  ]

  -- emu_poke()
  unfoldable pub emu_poke : ℕ → Queue Qpair W → Option (Ret × Queue Qpair W)
  emu_poke max q = elim (poke_loop (poke_max max q.outstanding) 0 q) [
    | none ↦ none
    | some (completed, q') ↦
        some (value completed, record q' { outstanding = sub32 q'.outstanding completed })
  ]
