-- ===== src/Thrpool/Live.antt =====
-- The progress of the thread pool: threads that are awake, and what they get done.
use xnvme.Common.{
  ℕ, ◌+◌, ◌<◌, ◌≡◌, ap, ◌∙◌, ◌≢◌, refl, inl, inr, false, List, [], ◌∷◌, ◌++◌, length, length-append,
  append-nil, append_assoc, length-eq-zero, uncons, arith, value, take-length,
}
use xnvme.Cmd.{Payload}
use xnvme.Queue.{Queue}
use xnvme.Queue.Pass.{SyncOps, Act}
use xnvme.Thrpool.{
  Entry, Thrpool, thrpool_cmd_io, call_back_all, recycle, set_qp, thrpool_poke, poke_max,
}
use xnvme.Thrpool.System.{System, initial, Work, sleep, leave, start, run, finish, Reach}
use xnvme.Thrpool.Inv.{IsValid, Reach-IsValid, length-split, enqueue-free}
use xnvme.Thrpool.Rest.{work_left, Works, IsSettled, work-or_IsSettled, Works-IsSettled, Works-same}

module _ {W : Type 0} (sync : SyncOps W) {n : ℕ} {q0 : Queue Thrpool W} {s : System W}
    (h : IsValid n (initial n q0)) (r : Reach sync n q0 s) where
  -- Wherever the threads of a pool and its user stand that has been started with an entry for
  -- each command of its capacity, submission without vectors returns 0 while the number of
  -- outstanding commands is not the capacity: it never finds the request pool empty.
  pub thrpool_cmd_io-accepted :
      (p : ℕ) (pl : Payload)
      → s.q.outstanding ≢ s.q.capacity
      → (thrpool_cmd_io 0 0 p pl s.q).0 ≡ value 0
  unfolding thrpool_cmd_io
  thrpool_cmd_io-accepted p pl room =
      let v : IsValid n s = Reach-IsValid sync h r in
      elim (uncons s.q.be.qp.rp) [
        | inl none_free ↦
            absurd
              (omega (arith, v.entries, v.counted, v.held, v.bounded, ap length none_free, room))
        | inr (e, rp, eq) ↦ (enqueue-free p _ false s.q eq).0
      ]

  -- No wake-up is lost.
  pub queued-awake :
      s.q.be.threads_stop ≡ false
      → s.signal ≡ false
      → s.q.be.qp.sq ≢ []
      → 0 < s.ready + length s.taken + length s.ran
  queued-awake going quiet queued =
      let v : IsValid n s = Reach-IsValid sync h r in
      let some_ : length s.q.be.qp.sq ≢ 0 = λ e. queued (length-eq-zero s.q.be.qp.sq e) in
      omega (arith, v.awake going quiet, v.working going, v.threads, some_)

-- `callback_noop`
abbrev pub noop : {W : Type 0} → ℕ → Queue Thrpool W → List (Act W)
noop p q = []

module _ {W : Type 0} (sync : SyncOps W) where
  call_back_all-noop :
      (es : List Entry) (q : Queue Thrpool W)
      → call_back_all sync noop es q ≡ set_qp (record q.be.qp { rp = q.be.qp.rp ++ es }) q
  unfolding call_back_all
  call_back_all-noop [] q = rw (append-nil q.be.qp.rp)
  call_back_all-noop (e ∷ es) q =
      call_back_all-noop es (recycle e q) ∙ rw (append_assoc q.be.qp.rp (e ∷ []) es)

  poke-settled :
      {n : ℕ} (s t : System W)
      → IsValid n t
      → IsSettled s t
      → t.completed ≡ 0
      → let (r, q') = thrpool_poke sync noop 0 0 t.q in
        (r ≡ value t.q.outstanding) × (q'.outstanding ≡ 0) × (length q'.be.qp.rp ≡ q'.capacity)
  unfolding thrpool_poke
  poke-settled s t v all idle =
      let cq : List Entry = t.q.be.qp.cq in
      let all_cq : t.q.outstanding ≡ length cq = omega (
        arith,
        v.counted,
        ap length all.no_sq,
        ap length all.no_taken,
        ap length all.no_ran,
        idle,
      ) in
      let asked : poke_max 0 t.q.outstanding ≡ length cq = rw all_cq (ground arith) in
      let whole : length t.q.be.qp.rp + length cq ≡ t.q.capacity = omega (
        arith,
        v.entries,
        v.held,
        ap length all.no_sq,
        ap length all.no_taken,
        ap length all.no_ran,
        idle,
      ) in
      rw (asked, take-length cq, call_back_all-noop)
        (rw all_cq refl, omega (arith, all_cq), omega (arith, length-append t.q.be.qp.rp cq, whole))

  -- No thread can make a step.
  abbrev pub Quiet : System W → Type 0
  Quiet s = (t : System W) → ¬ (Work sync s t)

  IsSettled-Quiet : (s t : System W) → IsSettled s t → Quiet t
  IsSettled-Quiet s t all u (sleep r w) = absurd (omega (arith, all.no_ready, r))
  IsSettled-Quiet s t all u (leave r w) = absurd (omega (arith, all.no_ready, r))
  IsSettled-Quiet s t all u (start r w) = absurd (omega (arith, all.no_ready, r))
  IsSettled-Quiet s t all u (run xs e ys eq) =
      absurd (omega (arith, ap length all.no_taken, length-split _ xs e ys eq))
  IsSettled-Quiet s t all u (finish xs e ys eq) =
      absurd (omega (arith, ap length all.no_ran, length-split _ xs e ys eq))

  -- Wherever the threads of a pool and its user stand that has been started with an entry for
  -- each command of its capacity, if the pool is not stopped, no signal is about to be given
  -- and the user is in no poke(): the threads can run to a point where none of them has a step
  -- left; and whatever way they run to such a point, poking all then returns the number of
  -- commands that were outstanding, leaves nothing outstanding and every entry in the request
  -- pool; callbacks do nothing in this last poke().
  pub outstanding-completed :
      {n : ℕ} {q0 : Queue Thrpool W} {s : System W}
      → IsValid n (initial n q0)
      → Reach sync n q0 s
      → s.q.be.threads_stop ≡ false
      → s.signal ≡ false
      → s.polling ≡ false
      → ((t : System W) × Works sync s t × Quiet t)
        × ((t : System W)
            → Works sync s t
            → Quiet t
            → let (r, q') = thrpool_poke sync noop 0 0 t.q in
              (r ≡ value s.q.outstanding)
              × (q'.outstanding ≡ 0)
              × (length q'.be.qp.rp ≡ q'.capacity))
  outstanding-completed {n} {s = s} h r going quiet outside =
      let v = Reach-IsValid sync h r in
      let (t, ws, all, vt) = Works-IsSettled sync (work_left s) s (omega arith) v going quiet in
      (
        (t, ws, IsSettled-Quiet s t all),
        λ t' ws' stuck.
            let (vt', a, b, c, d) = Works-same sync {n = n} ws' v in
            let all' : IsSettled t' t' =
              elim (work-or_IsSettled sync t' vt' (a ∙ going) (b ∙ quiet)) [
                | inl (u, w) ↦ absurd (stuck u w)
                | inr all' ↦ all'
              ] in
            let (x, y, z) = poke-settled t' t' vt' all' (d ∙ v.idle outside) in
            (x ∙ ap value c, y, z),
      )
