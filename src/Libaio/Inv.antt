-- ===== src/Libaio/Inv.antt =====
-- What `outstanding` of a queue of libaio counts.
use xnvme.Common.{
  ℕ, ◌+◌, ◌%◌, ◌^◌, ◌≤◌, ◌<◌, ◌≡◌, ◌≢◌, inl, inr, true, ◌==◌, List, [], ◌∷◌, length, Option, none,
  some, arith, value, Errno, Bool-cases, ℕ_discrete, ==_ne, ==_iff,
}
use xnvme.Cmd.{Payload}
use xnvme.Queue.{Queue}
use xnvme.Queue.Pass.{
  SyncOps, Act, get_ctx, put_ctx, prepare, touch, submit, submit_iov, cmd_pass, cmd_pass_iov,
  run_act, run_acts,
}
use xnvme.Ramdisk.{io_opc, has_meta}
use xnvme.Libaio.{
  IocbCmd, Iocb, Event, LibaioQueue, Libaio, libaio_io_switch, libaio_iov_switch, iocb_of,
  libaio_submit, libaio_cmd_io, libaio_cmd_iov, libaio_async,
}

-- Every event has a context.
abbrev pub AllOwned : List Event → Type 0
AllOwned [] = Unit {0}
AllOwned (e ∷ es) = ((p : ℕ) × (e.data_ ≡ some p)) × AllOwned es

-- Whether the `data` of a control block is NULL, as a number.
unfoldable pub null_data : Iocb → ℕ
null_data i = elim i.data_ [ none ↦ 1 | some p ↦ 0 ]

-- What is documented of libaio and of the ring of the kernel: `held` counts the control blocks that
-- were submitted and whose events were not taken yet, `unset` those of them whose `data` is NULL, and
-- `avail` the events in the ring, from its head on. An event has the `data` of its control block.
-- Time can only add events.
pub record IsAio {A W : Type 0} (aio : Libaio A W) (held unset avail : A → ℕ) : Type 0 where
  pub taken :
      (i : Iocb) (a : A) (w : W)
      → (aio.submit i a w).0 ≡ value 1
      → (held (aio.submit i a w).1 ≡ held a + 1)
        × (unset (aio.submit i a w).1 ≡ unset a + null_data i)
  pub refused :
      (i : Iocb) (a : A) (w : W)
      → (aio.submit i a w).0 ≢ value 1
      → (held (aio.submit i a w).1 ≡ held a) × (unset (aio.submit i a w).1 ≡ unset a)
  pub got :
      (lo hi : ℕ) (a : A) (w : W) (es : List Event)
      → (aio.getevents lo hi a w).0 ≡ inr es
      → (length es ≤ hi)
        × (held (aio.getevents lo hi a w).1 + length es ≡ held a)
        × (unset (aio.getevents lo hi a w).1 ≤ unset a)
        × (unset a ≡ 0 → AllOwned es)
  pub missed :
      (lo hi : ℕ) (a : A) (w : W) (e : Errno)
      → (aio.getevents lo hi a w).0 ≡ inl e
      → (held (aio.getevents lo hi a w).1 ≡ held a) × (unset (aio.getevents lo hi a w).1 ≡ unset a)
  pub read :
      (a : A) (w : W)
      → let (tail, a', w') = aio.tail a w in
        (tail ≡ (aio.head a + avail a') % aio.nr a)
        × (avail a ≤ avail a')
        × (aio.head a' ≡ aio.head a)
        × (aio.nr a' ≡ aio.nr a)
        × (held a' ≡ held a)
        × (unset a' ≡ unset a)
  pub start : (a : A) → aio.head a ≡ aio.head a % aio.nr a
  pub owned :
      (a : A) (k : ℕ)
      → k < avail a
      → unset a ≡ 0
      → (p : ℕ) × ((aio.events a ((aio.head a + k) % aio.nr a)).data_ ≡ some p)
  pub consumed :
      (a : A) (k : ℕ)
      → k ≤ avail a
      → (held (aio.set_head ((aio.head a + k) % aio.nr a) a) + k ≡ held a)
        × (unset (aio.set_head ((aio.head a + k) % aio.nr a) a) ≤ unset a)

-- `outstanding` counts what is held, and `k` completions more; every control block that is held has a
-- context.
pub record IsValid {A W : Type 0} (held unset : A → ℕ) (k : ℕ) (q : Queue (LibaioQueue A) W)
    : Type 0 where
  pub counted : q.outstanding ≡ held q.be.aio_ctx + k
  pub owned : unset q.be.aio_ctx ≡ 0
  pub bounded : q.outstanding ≤ q.capacity
  pub small : q.capacity < 4096

module _ {A W : Type 0} (aio : Libaio A W) (held unset avail : A → ℕ)
    (is : IsAio aio held unset avail) (fd ssw : ℕ) (sync : SyncOps W) {k : ℕ} where
  libaio_submit-IsValid :
      (op : Option (IocbCmd × ℕ)) (buf len p : ℕ) (q : Queue (LibaioQueue A) W)
      → IsValid held unset k q
      → q.outstanding ≢ q.capacity
      → IsValid held unset k (libaio_submit aio fd ssw op buf len p q).1
  unfolding libaio_submit iocb_of null_data
  libaio_submit-IsValid none buf len p q v room = v
  libaio_submit-IsValid (some (op, shift)) buf len p q v room =
      let i : Iocb = iocb_of aio fd ssw op shift buf len q.be (q.ctxs p) p in
      ground (
        arith,
        v.counted,
        v.owned,
        v.bounded,
        v.small,
        is.taken i q.be.aio_ctx q.world,
        is.refused i q.be.aio_ctx q.world,
      )

  libaio_cmd_io-IsValid :
      (p : ℕ) (pl : Payload) (q : Queue (LibaioQueue A) W)
      → IsValid held unset k q
      → q.outstanding ≢ q.capacity
      → IsValid held unset k (libaio_cmd_io aio fd ssw p pl q).1
  unfolding libaio_cmd_io
  libaio_cmd_io-IsValid p pl q v room = elim (Bool-cases (has_meta pl)) [
    | inl meta ↦ rw meta v
    | inr plain ↦ rw plain (
        libaio_submit-IsValid (libaio_io_switch ssw (io_opc (q.ctxs p).cmd.opcode)) pl.buf pl.nbytes
          p q v room)
  ]

  libaio_cmd_iov-IsValid :
      (p : ℕ) (pl : Payload) (q : Queue (LibaioQueue A) W)
      → IsValid held unset k q
      → IsValid held unset k (libaio_cmd_iov aio fd ssw p pl q).1
  unfolding libaio_cmd_iov
  libaio_cmd_iov-IsValid p pl q v = elim (ℕ_discrete q.outstanding q.capacity) [
    | yes full ↦ let test : (q.outstanding == q.capacity) ≡ true = (==_iff _ _).1 full in rw test v
    | no room ↦ elim (Bool-cases (has_meta pl)) [
      | inl meta ↦ rw (==_ne _ _ room, meta) v
      | inr plain ↦
          rw (==_ne _ _ room, plain)
            (libaio_submit-IsValid (libaio_iov_switch ssw (io_opc (q.ctxs p).cmd.opcode)) pl.buf
              (pl.vec_cnt % 2 ^ 32) p q v room)
    ]
  ]

  cmd_pass-IsValid :
      (p : ℕ) (pl : Payload) (q : Queue (LibaioQueue A) W)
      → IsValid held unset k q
      → IsValid held unset k (cmd_pass (libaio_async aio fd ssw) sync p pl q).1
  unfolding cmd_pass
  cmd_pass-IsValid p pl q v = ground (arith, libaio_cmd_io-IsValid p pl q v)

  cmd_pass_iov-IsValid :
      (p : ℕ) (pl : Payload) (q : Queue (LibaioQueue A) W)
      → IsValid held unset k q
      → IsValid held unset k (cmd_pass_iov (libaio_async aio fd ssw) sync p pl q).1
  unfolding cmd_pass_iov
  cmd_pass_iov-IsValid p pl q v = ground (arith, libaio_cmd_iov-IsValid p pl q v)

  run_act-IsValid :
      (a : Act W) (q : Queue (LibaioQueue A) W)
      → IsValid held unset k q
      → IsValid held unset k (run_act (libaio_async aio fd ssw) sync a q)
  unfolding run_act
  run_act-IsValid get_ctx q v = ground arith
  run_act-IsValid (put_ctx p) q v = ground arith
  run_act-IsValid (prepare p c) q v = ground arith
  run_act-IsValid (touch w) q v = ground arith
  run_act-IsValid (submit p pl) q v = cmd_pass-IsValid p pl q v
  run_act-IsValid (submit_iov p pl) q v = cmd_pass_iov-IsValid p pl q v

  pub run_acts-IsValid :
      (as_ : List (Act W)) (q : Queue (LibaioQueue A) W)
      → IsValid held unset k q
      → IsValid held unset k (run_acts (libaio_async aio fd ssw) sync as_ q)
  unfolding run_acts
  run_acts-IsValid [] q v = v
  run_acts-IsValid (a ∷ as_) q v =
      run_acts-IsValid as_ (run_act (libaio_async aio fd ssw) sync a q) (run_act-IsValid a q v)
