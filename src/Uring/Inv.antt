-- ===== src/Uring/Inv.antt =====
-- What `outstanding` of an io_uring queue counts.
use xnvme.Common.{
  ℕ, zero, suc, ◌+◌, ◌%◌, ◌^◌, ◌≤◌, ◌<◌, ◌≡◌, ◌≢◌, refl, sym, ◌∙◌, ◌⊎◌, inl, inr, true, false, ◌==◌,
  ◌&&◌, List, [], ◌∷◌, Option, none, some, arith, if◌then◌else◌, min, sub32, Ret, value, is_neg,
  Bool-cases, Option-cases, ℕ_discrete, ==_ne, ==_iff,
}
use xnvme.Cmd.{Payload, update}
use xnvme.Queue.{Queue}
use xnvme.Queue.Pass.{
  SyncOps, Act, get_ctx, put_ctx, prepare, touch, submit, submit_iov, cmd_pass, cmd_pass_iov,
  run_act, run_acts,
}
use xnvme.Ramdisk.{io_opc, has_meta}
use xnvme.Uring.{
  UringOp, Sqe, UringQueue, Liburing, is_fsync, uring_io_switch, uring_iov_switch, sqe_of, send,
  dispatch, liburing_cmd_io, liburing_cmd_iov, liburing_async, complete, uring_round, uring_loop,
  uring_max, liburing_poke,
}

-- What is documented of a ring: `held` counts the entries that were obtained and whose
-- completions were not handed back yet.
pub record IsRing {R W : Type 0} (uring : Liburing R W) (held : R → ℕ) : Type 0 where
  pub got : (r : R) → (uring.get_sqe r).0 ≡ true → held (uring.get_sqe r).1 ≡ held r + 1
  pub full : (r : R) → (uring.get_sqe r).0 ≡ false → held (uring.get_sqe r).1 ≡ held r
  pub filled : (e : Sqe) (r : R) → held (uring.fill e r) ≡ held r
  pub submitted : (r : R) (w : W) → held (uring.submit r w).1 ≡ held r
  pub peeked : (r : R) (w : W) → held (uring.peek_cqe r w).1 ≡ held r
  pub seen :
      (r : R) (w : W) (c : ℕ × Ret)
      → (uring.peek_cqe r w).0 ≡ some c
      → held (uring.cqe_seen (uring.peek_cqe r w).1) + 1 ≡ held r

-- A queue whose commands are submitted in batches, the default.
pub record IsValid {R W : Type 0} (held : R → ℕ) (q : Queue (UringQueue R) W) : Type 0 where
  pub counted : q.outstanding ≡ held q.be.ring
  pub bounded : q.outstanding ≤ q.capacity
  pub small : q.capacity < 4096
  pub batching : q.be.batching ≡ true

module _ {R W : Type 0} (uring : Liburing R W) (held : R → ℕ) (ring : IsRing uring held)
    (fd ssw : ℕ) (sync : SyncOps W) where
  send-IsValid :
      (e : Sqe) (q : Queue (UringQueue R) W)
      → IsValid held q
      → q.outstanding ≢ q.capacity
      → IsValid held (send uring fd ssw e q).1
  unfolding send
  send-IsValid e q v room = elim (Bool-cases (uring.get_sqe q.be.ring).0) [
    | inr full ↦ rw full (record {
      counted = v.counted ∙ sym (ring.full q.be.ring full);
      bounded = v.bounded;
      small = v.small;
      batching = v.batching;
    })
    | inl found ↦
        rw (found, v.batching)
          (record {
            counted = omega (
              arith,
              v.counted,
              v.bounded,
              v.small,
              ring.filled e (uring.get_sqe q.be.ring).1,
              ring.got q.be.ring found,
            );
            bounded = omega (arith, v.bounded, v.small, room);
            small = v.small;
            batching = refl;
          })
  ]

  dispatch-IsValid :
      (op : Option (UringOp × ℕ)) (addr len p : ℕ) (q : Queue (UringQueue R) W)
      → IsValid held q
      → q.outstanding ≢ q.capacity
      → IsValid held (dispatch uring fd ssw op addr len p q).1
  unfolding dispatch
  dispatch-IsValid none addr len p q v room = v
  dispatch-IsValid (some (op, shift)) addr len p q v room =
      elim (Bool-cases (is_fsync op && q.be.poll_io)) [
        | inl refused ↦ rw refused v
        | inr taken ↦
            rw taken
              (send-IsValid (sqe_of uring fd ssw op shift addr len q.be (q.ctxs p) p) q v room)
      ]

  liburing_cmd_io-IsValid :
      (p : ℕ) (pl : Payload) (q : Queue (UringQueue R) W)
      → IsValid held q
      → q.outstanding ≢ q.capacity
      → IsValid held (liburing_cmd_io uring fd ssw p pl q).1
  unfolding liburing_cmd_io
  liburing_cmd_io-IsValid p pl q v room = elim (Bool-cases (has_meta pl)) [
    | inl meta ↦ rw meta v
    | inr plain ↦ rw plain (
        dispatch-IsValid (uring_io_switch ssw (io_opc (q.ctxs p).cmd.opcode)) pl.buf
          (pl.nbytes % 2 ^ 32) p q v room)
  ]

  liburing_cmd_iov-IsValid :
      (p : ℕ) (pl : Payload) (q : Queue (UringQueue R) W)
      → IsValid held q
      → IsValid held (liburing_cmd_iov uring fd ssw p pl q).1
  unfolding liburing_cmd_iov
  liburing_cmd_iov-IsValid p pl q v = elim (ℕ_discrete q.outstanding q.capacity) [
    | yes full ↦ let test : (q.outstanding == q.capacity) ≡ true = (==_iff _ _).1 full in rw test v
    | no room ↦ elim (Bool-cases (has_meta pl)) [
      | inl meta ↦ rw (==_ne _ _ room, meta) v
      | inr plain ↦
          rw (==_ne _ _ room, plain)
            (dispatch-IsValid (uring_iov_switch ssw (io_opc (q.ctxs p).cmd.opcode)) pl.buf
              (pl.vec_cnt % 2 ^ 32) p q v room)
    ]
  ]

  cmd_pass-IsValid :
      (p : ℕ) (pl : Payload) (q : Queue (UringQueue R) W)
      → IsValid held q
      → IsValid held (cmd_pass (liburing_async uring fd ssw) sync p pl q).1
  unfolding cmd_pass
  cmd_pass-IsValid p pl q v = ground (arith, liburing_cmd_io-IsValid p pl q v)

  cmd_pass_iov-IsValid :
      (p : ℕ) (pl : Payload) (q : Queue (UringQueue R) W)
      → IsValid held q
      → IsValid held (cmd_pass_iov (liburing_async uring fd ssw) sync p pl q).1
  unfolding cmd_pass_iov
  cmd_pass_iov-IsValid p pl q v = ground (arith, liburing_cmd_iov-IsValid p pl q v)

  run_act-IsValid :
      (a : Act W) (q : Queue (UringQueue R) W)
      → IsValid held q
      → IsValid held (run_act (liburing_async uring fd ssw) sync a q)
  unfolding run_act
  run_act-IsValid get_ctx q v = ground arith
  run_act-IsValid (put_ctx p) q v = ground arith
  run_act-IsValid (prepare p c) q v = ground arith
  run_act-IsValid (touch w) q v = ground arith
  run_act-IsValid (submit p pl) q v = cmd_pass-IsValid p pl q v
  run_act-IsValid (submit_iov p pl) q v = cmd_pass_iov-IsValid p pl q v

  pub run_acts-IsValid :
      (as_ : List (Act W)) (q : Queue (UringQueue R) W)
      → IsValid held q
      → IsValid held (run_acts (liburing_async uring fd ssw) sync as_ q)
  unfolding run_acts
  run_acts-IsValid [] q v = v
  run_acts-IsValid (a ∷ as_) q v =
      run_acts-IsValid as_ (run_act (liburing_async uring fd ssw) sync a q) (run_act-IsValid a q v)

-- The number of completions that poke() is asked for, cut to those outstanding.
abbrev pub poke_count : {R W : Type 0} → ℕ → Queue (UringQueue R) W → ℕ
poke_count max q = if max == 0 then q.outstanding else min max q.outstanding

module _ {R W : Type 0} (uring : Liburing R W) (held : R → ℕ) (ring : IsRing uring held)
    (fd ssw : ℕ) (sync : SyncOps W) (react : ℕ → Queue (UringQueue R) W → List (Act W)) where
  uring_round-IsValid :
      (p : ℕ) (res : Ret) (q : Queue (UringQueue R) W)
      → q.outstanding ≡ held (uring.cqe_seen q.be.ring) + 1
      → q.outstanding ≤ q.capacity
      → q.capacity < 4096
      → q.be.batching ≡ true
      → IsValid held (uring_round uring fd ssw sync react p res q)
  unfolding uring_round
  uring_round-IsValid p res q counted bounded small batching =
      let q' : Queue (UringQueue R) W = record q {
        outstanding = sub32 q.outstanding 1;
        ctxs = update q.ctxs p (complete uring fd ssw sync react res (q.ctxs p));
        be = record q.be { ring = uring.cqe_seen q.be.ring };
      } in
      run_acts-IsValid uring held ring fd ssw sync (react p q') q' (record {
        counted = omega (arith, counted, bounded, small);
        bounded = omega (arith, counted, bounded, small);
        small = small;
        batching = batching;
      })

  uring_loop-IsValid :
      (n completed : ℕ) (q : Queue (UringQueue R) W)
      → IsValid held q
      → let (k, q') = uring_loop uring fd ssw sync react n completed q in
        IsValid held q' × (completed ≤ k) × (k ≤ completed + n)
  unfolding uring_loop
  uring_loop-IsValid zero completed q v = (v, omega arith, omega arith)
  uring_loop-IsValid (suc n) completed q v =
      let r : R = (uring.peek_cqe q.be.ring q.world).1 in
      let counted : q.outstanding ≡ held r = v.counted ∙ sym (ring.peeked q.be.ring q.world) in
      elim (Option-cases (uring.peek_cqe q.be.ring q.world).0) [
        | inl none_ ↦
            rw (uring_loop, none_)
              (
                record {
                  counted = counted;
                  bounded = v.bounded;
                  small = v.small;
                  batching = v.batching;
                },
                omega arith,
                omega arith,
              )
        | inr ((p, res), found) ↦
            let q1 : Queue (UringQueue R) W = record q {
              be = record q.be { ring = r };
              world = (uring.peek_cqe q.be.ring q.world).2;
            } in
            let (v', ge, le) = uring_loop-IsValid n (completed + 1) _ (
              uring_round-IsValid p res q1
                (v.counted ∙ sym (ring.seen q.be.ring q.world (p, res) found)) v.bounded v.small
                v.batching) in
            rw (uring_loop, found) (v', omega arith, omega arith)
      ]

  -- On a queue that submits in batches and whose `outstanding` counts the entries that its ring
  -- holds, xnvme_be_linux_liburing_poke() keeps this count, whatever the callbacks do, and so
  -- never lowers it below 0. It returns at most as many completions as were asked for, cut to
  -- those outstanding, or the error of io_uring_submit() with nothing completed.
  pub liburing_poke-IsValid :
      (max : ℕ) (q : Queue (UringQueue R) W)
      → IsValid held q
      → let (r, q') = liburing_poke uring fd ssw sync react max q in
        IsValid held q'
        × (((k : ℕ) × (r ≡ value k) × (k ≤ poke_count max q))
            ⊎ ((is_neg r ≡ true)
                × (r ≡ (uring.submit q.be.ring q.world).0)
                × (q'.outstanding ≡ q.outstanding)))
  unfolding liburing_poke
  liburing_poke-IsValid max q v =
      let (err, r, w) = uring.submit q.be.ring q.world in
      let sent : Queue (UringQueue R) W = record q {
        be = record q.be { ring = r; batching = true };
        world = w;
      } in
      let vs : IsValid held sent = record {
        counted = v.counted ∙ sym (ring.submitted q.be.ring q.world);
        bounded = v.bounded;
        small = v.small;
        batching = refl;
      } in
      let (v', ge, le) = uring_loop-IsValid (uring_max max q.outstanding) 0 sent vs in
      elim (Bool-cases (is_neg err)) [
        | inl bad ↦ rw (v.batching, bad) (vs, inr (bad, refl, refl))
        | inr good ↦ rw (v.batching, good) (v', inl (_, refl, ground arith))
      ]
