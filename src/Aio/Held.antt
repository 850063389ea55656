-- ===== src/Aio/Held.antt =====
-- What callbacks leave of the POSIX aio queue: its requests and their number.
use xnvme.Common.{
  ℕ, ◌+◌, ◌<◌, ◌≡◌, ◌≢◌, sym, ◌∙◌, ap, inl, inr, true, false, ◌==◌, List, [], ◌∷◌, Option, none,
  some, length, length-append, uncons, arith, Bool-cases, ℕ_discrete, ==_ne, ==_iff,
}
use xnvme.Cmd.{Payload, cmd_async, cmd_sync, io_mode}
use xnvme.Queue.{Queue}
use xnvme.Queue.Pass.{
  SyncOps, Act, get_ctx, put_ctx, prepare, touch, submit, submit_iov, cmd_pass, cmd_pass_iov,
  run_act, run_acts,
}
use xnvme.Ramdisk.{io_opc, has_meta}
use xnvme.Aio.{Request, PosixQueue, PosixAio, start_request, posix_cmd_io, posix_async, aio_switch}
use xnvme.Aio.Slots.{has, has-append, occurs, occurs-append}

-- Every slot of the storage is that of one request, which is ready or outstanding.
pub record IsValid {W : Type 0} (q : Queue PosixQueue W) : Type 0 where
  pub entries : length q.be.reqs_ready + length q.be.reqs_outstanding ≡ q.capacity
  pub counted : q.outstanding ≡ length q.be.reqs_outstanding
  pub once :
      (slot : ℕ)
      → slot < q.capacity
      → occurs slot q.be.reqs_ready + occurs slot q.be.reqs_outstanding ≡ 1
  pub small : q.capacity < 4096
  pub safe : q.be.null_followed ≡ false

-- The request of `slot` is outstanding too.
pub record IsHolding {W : Type 0} (slot : ℕ) (q : Queue PosixQueue W) : Type 0 where
  pub valid : IsValid q
  pub holds : has slot q.be.reqs_outstanding ≡ true

module _ {W : Type 0} {slot : ℕ} where
  -- A request that was not started goes back to where it was taken.
  put_back-IsHolding :
      (p : ℕ) (r : Request) (rs : List Request) (q : Queue PosixQueue W) (w : W)
      → q.be.reqs_ready ≡ r ∷ rs
      → IsHolding slot q
      → IsHolding slot
          (record q { be = record q.be { reqs_ready = record r { ctx = p } ∷ rs }; world = w })
  unfolding occurs
  put_back-IsHolding p r rs q w eq h = record {
    valid = record {
      entries = ground (arith, ap length eq);
      counted = h.valid.counted;
      once = λ s lt.
          ap (λ k. k + occurs s q.be.reqs_outstanding) (sym (ap (occurs s) eq)) ∙ h.valid.once s lt;
      small = h.valid.small;
      safe = h.valid.safe;
    };
    holds = h.holds;
  }

  start_request-IsHolding :
      (p : ℕ) (r : Request) (rs : List Request) (q : Queue PosixQueue W) (called : Option (ℕ × W))
      → q.be.reqs_ready ≡ r ∷ rs
      → IsHolding slot q
      → IsHolding slot (start_request p r rs q called).1
  unfolding start_request occurs
  start_request-IsHolding p r rs q none eq h =
      let back : IsHolding slot _ = put_back-IsHolding p r rs q q.world eq h in
      record {
        valid = record {
          entries = back.valid.entries;
          counted = back.valid.counted;
          once = back.valid.once;
          small = back.valid.small;
          safe = back.valid.safe;
        };
        holds = back.holds;
      }
  start_request-IsHolding p r rs q (some (err, w)) eq h = elim (ℕ_discrete err 0) [
    | no bad ↦
        let test : (err == 0) ≡ false = ==_ne _ 0 bad in
        rw test (put_back-IsHolding p r rs q w eq h)
    | yes ok ↦ rw ok (record {
      valid = record {
        entries = grind (arith, h.valid.entries, ap length eq, length-append);
        counted = grind (arith, h.valid.counted, h.valid.entries, h.valid.small, length-append);
        once = λ s lt. omega (
          arith,
          occurs-append s q.be.reqs_outstanding (record r { ctx = p } ∷ []),
          ap (occurs s) eq,
          h.valid.once s lt,
        );
        small = h.valid.small;
        safe = h.valid.safe;
      };
      holds = has-append slot q.be.reqs_outstanding _ h.holds;
    })
  ]

module _ {W : Type 0} (aio : PosixAio W) (ssw : ℕ) (sync : SyncOps W) {slot : ℕ} where
  posix_cmd_io-IsHolding :
      (p : ℕ) (pl : Payload) (q : Queue PosixQueue W)
      → IsHolding slot q
      → q.outstanding ≢ q.capacity
      → IsHolding slot (posix_cmd_io aio ssw p pl q).1
  unfolding posix_cmd_io
  posix_cmd_io-IsHolding p pl q h room = elim (Bool-cases (has_meta pl)) [
    | inl meta ↦ rw meta h
    | inr plain ↦ elim (uncons q.be.reqs_ready) [
      | inl empty ↦ absurd (omega (arith, ap length empty, h.valid.entries, h.valid.counted, room))
      | inr (r, rs, eq) ↦
          rw (plain, posix_cmd_io, eq)
            (start_request-IsHolding p r rs q
              (aio_switch aio ssw (io_opc (q.ctxs p).cmd.opcode) r.slot (q.ctxs p).cmd pl q.world)
              eq h)
    ]
  ]

  cmd_pass-IsHolding :
      (p : ℕ) (pl : Payload) (q : Queue PosixQueue W)
      → IsHolding slot q
      → IsHolding slot (cmd_pass (posix_async aio ssw) sync p pl q).1
  unfolding cmd_pass
  cmd_pass-IsHolding p pl q h = elim (Bool-cases (io_mode (q.ctxs p) == cmd_async)) [
    | inl async_ ↦ elim (ℕ_discrete q.outstanding q.capacity) [
      | yes full ↦
          let test : (q.outstanding == q.capacity) ≡ true = (==_iff _ _).1 full in
          rw (async_, test) h
      | no room ↦ rw (async_, ==_ne _ _ room) (posix_cmd_io-IsHolding p pl q h room)
    ]
    | inr other_ ↦ elim (Bool-cases (io_mode (q.ctxs p) == cmd_sync)) [
      | inl sync_ ↦ rw (other_, sync_) (record { valid = ground arith; holds = h.holds })
      | inr none_ ↦ rw (other_, none_) h
    ]
  ]

  cmd_pass_iov-IsHolding :
      (p : ℕ) (pl : Payload) (q : Queue PosixQueue W)
      → IsHolding slot q
      → IsHolding slot (cmd_pass_iov (posix_async aio ssw) sync p pl q).1
  unfolding cmd_pass_iov
  cmd_pass_iov-IsHolding p pl q h = ground (arith, h.valid, h.holds)

  run_act-IsHolding :
      (a : Act W) (q : Queue PosixQueue W)
      → IsHolding slot q
      → IsHolding slot (run_act (posix_async aio ssw) sync a q)
  unfolding run_act
  run_act-IsHolding get_ctx q h = record {
    valid = ground (arith, h.valid);
    holds = ground (arith, h.holds);
  }
  run_act-IsHolding (put_ctx p) q h = record { valid = ground arith; holds = h.holds }
  run_act-IsHolding (prepare p c) q h = record { valid = ground arith; holds = h.holds }
  run_act-IsHolding (touch w) q h = record { valid = ground arith; holds = h.holds }
  run_act-IsHolding (submit p pl) q h = cmd_pass-IsHolding p pl q h
  run_act-IsHolding (submit_iov p pl) q h = cmd_pass_iov-IsHolding p pl q h

  pub run_acts-IsHolding :
      (as_ : List (Act W)) (q : Queue PosixQueue W)
      → IsHolding slot q
      → IsHolding slot (run_acts (posix_async aio ssw) sync as_ q)
  unfolding run_acts
  run_acts-IsHolding [] q h = h
  run_acts-IsHolding (a ∷ as_) q h =
      run_acts-IsHolding as_ (run_act (posix_async aio ssw) sync a q) (run_act-IsHolding a q h)
