-- ===== src/Nil/Resubmit.antt =====
-- The nil queue with a callback that submits its context again.
use xnvme.Common.{
  ℕ, suc, ◌+◌, ◌≤◌, ◌<◌, ◌≡◌, ap, ◌∙◌, true, false, List, [], ◌∷◌, none, some, ◌==◌, ==_ne, ==_refl,
  arith, Ret, fail, eio, sub32,
}
use xnvme.Cmd.{Payload, update, io_mode, cmd_async}
use xnvme.Queue.{Queue}
use xnvme.Queue.Pass.{SyncOps, Act, submit, run_acts, run_act, cmd_pass-async}
use xnvme.Nil.{Slots, nil_async, reap, nil_loop, nil_poke, poke_max, nil_cmd_io}
use xnvme.Nil.Reap.{IsValid, nil_loop-some}

-- The callback submits the context that it is called for, with the payload `pl`.
abbrev pub resubmit : {W : Type 0} → Payload → ℕ → Queue Slots W → List (Act W)
resubmit pl p q = submit p pl ∷ []

module _ {W : Type 0} (sync : SyncOps W) (pl : Payload) where
  -- A round on slot `k` leaves that slot empty, and the command it submits in the slot behind.
  record IsMoved (k p : ℕ) (q : Queue Slots W) : Type 0 where
    grown : q.outstanding ≡ k + 2
    emptied : q.be.ctx k ≡ none
    moved : q.be.ctx (k + 1) ≡ some p

  reap-IsMoved :
      (k p : ℕ) (q : Queue Slots W)
      → q.outstanding ≡ k + 1
      → q.outstanding < q.capacity
      → q.capacity ≤ 29
      → io_mode (q.ctxs p) ≡ cmd_async
      → IsMoved k p (reap sync (resubmit pl) k p q)
  unfolding reap run_act nil_cmd_io
  reap-IsMoved k p q e room fits mode =
      let cleared : Queue Slots W = record q {
        ctxs = update q.ctxs p (record (q.ctxs p) { sc = 0 });
      } in
      let kept : io_mode (cleared.ctxs p) ≡ cmd_async = rw (==_refl p) mode in
      let called : Queue Slots W = run_acts nil_async sync (resubmit pl p cleared) cleared in
      let sent : called ≡ (nil_cmd_io p pl cleared).1 =
        ap (λ (r : Ret × Queue Slots W). r.1)
          (cmd_pass-async nil_async sync p pl cleared kept (omega arith)) in
      let other : (k + 1 == k) ≡ false = ==_ne _ _ (omega arith) in
      let last : (k + 1 == q.outstanding) ≡ true = rw e (==_refl (k + 1)) in
      record {
        grown = ap (λ (c : Queue Slots W). c.outstanding) sent ∙ omega arith;
        emptied = rw (==_refl k);
        moved = rw other (ap (λ (c : Queue Slots W). c.be.ctx (k + 1)) sent ∙ rw last);
      }

  nil_loop-none :
      (react : ℕ → Queue Slots W → List (Act W)) (n completed k : ℕ) (q : Queue Slots W)
      → sub32 (sub32 q.outstanding completed) 1 ≡ k
      → q.be.ctx k ≡ none
      → nil_loop sync react (suc n) completed q
        ≡ (fail eio, record q { outstanding = sub32 q.outstanding (completed + 1) })
  unfolding nil_loop
  nil_loop-none react n completed k q e eq =
      let eq' : q.be.ctx (sub32 (sub32 q.outstanding completed) 1) ≡ none = rw e eq in
      rw (nil_loop, eq')

  -- With two commands or more outstanding on a valid queue that is not full, and a callback
  -- that submits its context again, nil_poke() without a limit fails with EIO after one
  -- completion, and the command submitted last is behind the end of the outstanding ones.
  pub nil_poke-resubmit :
      (k p : ℕ) (q : Queue Slots W)
      → IsValid q
      → q.outstanding ≡ suc (suc k)
      → q.outstanding < q.capacity
      → q.be.ctx (suc k) ≡ some p
      → io_mode (q.ctxs p) ≡ cmd_async
      → (q' : Queue Slots W) × (nil_poke sync (resubmit pl) 0 q ≡ (fail eio, q'))
        × (q'.outstanding ≡ suc k)
        × (q'.be.ctx (suc k + 1) ≡ some p)
  unfolding nil_poke
  nil_poke-resubmit k p q h e room held mode =
      let q1 : Queue Slots W = reap sync (resubmit pl) (suc k) p q in
      let m : IsMoved (suc k) p q1 = reap-IsMoved (suc k) p q (omega arith) room h.fits mode in
      let count : poke_max 0 q.outstanding ≡ suc (suc k) = ground arith in
      (
        record q1 { outstanding = sub32 q1.outstanding 2 },
        rw count (
            nil_loop-some sync (resubmit pl) (suc k) 0 (suc k) p q (omega arith) held
            ∙ nil_loop-none (resubmit pl) k 1 (suc k) q1 (omega (arith, m.grown, h.fits))
                m.emptied),
        omega (arith, m.grown, h.fits),
        m.moved,
      )
