-- ===== src/Thrpool/Order.antt =====
-- The order in which the thread pool takes commands, and how often it runs and calls back each.
use xnvme.Common.{
  ℕ, ◌+◌, ◌≡◌, refl, ap, ◌∙◌, sym, List, [], ◌∷◌, ◌++◌, ◌==◌, if◌then◌else◌, append_assoc, take,
  drop, take-drop, arith, value, Bool, true, length-eq-zero, ◌≢◌, uncons, inl, inr,
}
use xnvme.Cmd.{Payload}
use xnvme.Queue.{Queue}
use xnvme.Queue.Pass.{SyncOps}
use xnvme.Thrpool.{Entry, Thrpool, enqueue, thrpool_cmd_io, thrpool_cmd_iov, perform, poke_max}
use xnvme.Thrpool.System.{
  System, initial, ctxs_of, Work, sleep, leave, start, run, finish, Use, spurious, write, submit,
  submit_iov, signal_one, signal_none, poke, call, return, poke_end, term, Reach, begin, works,
  uses,
}
use xnvme.Thrpool.Inv.{IsValid, Reach-IsValid, turn-take, enqueue-free}

-- The sum of the weights of contexts: with the weight 1 for one context and 0 for the others, how
-- often it occurs.
abbrev pub total : (ℕ → ℕ) → List ℕ → ℕ
total f [] = 0
total f (p ∷ ps) = f p + total f ps

-- How often a context occurs.
abbrev pub count : ℕ → List ℕ → ℕ
count p = total (λ x. if x == p then 1 else 0)

pub total-append : (f : ℕ → ℕ) (xs ys : List ℕ) → total f (xs ++ ys) ≡ total f xs + total f ys
total-append f [] ys = omega arith
total-append f (x ∷ xs) ys = omega (arith, total-append f xs ys)

pub ctxs_of-append : (xs ys : List Entry) → ctxs_of (xs ++ ys) ≡ ctxs_of xs ++ ctxs_of ys
ctxs_of-append [] ys = refl
ctxs_of-append (x ∷ xs) ys = rw (ctxs_of-append xs ys)

abbrev weight : (ℕ → ℕ) → List Entry → ℕ
weight f es = total f (ctxs_of es)

weight-append : (f : ℕ → ℕ) (xs ys : List Entry) → weight f (xs ++ ys) ≡ weight f xs + weight f ys
weight-append f xs ys = rw (ctxs_of-append xs ys) (total-append f (ctxs_of xs) (ctxs_of ys))

weight-split :
    (f : ℕ → ℕ) {l : List Entry} (xs : List Entry) (e : Entry) (ys : List Entry)
    → l ≡ xs ++ e ∷ ys
    → weight f l ≡ f e.ctx + weight f (xs ++ ys)
weight-split f xs e ys eq =
    rw eq (omega (arith, weight-append f xs (e ∷ ys), weight-append f xs ys))

-- Commands are started in the order of their submission, and each is in one place.
pub record IsOrdered {W : Type 0} (s : System W) : Type 0 where
  pub fifo : s.started ++ ctxs_of s.q.be.qp.sq ≡ s.submitted
  pub once :
      (f : ℕ → ℕ)
      → total f s.submitted
        ≡ total f (ctxs_of s.q.be.qp.sq)
          + total f (ctxs_of s.taken)
          + total f (ctxs_of s.ran)
          + total f (ctxs_of s.q.be.qp.cq)
          + total f (ctxs_of s.polled)
          + total f s.called

module _ {W : Type 0} (sync : SyncOps W) where
  enqueue-full :
      (p : ℕ) (pl : Payload) (vec : Bool) (q : Queue Thrpool W) {q' : Queue Thrpool W}
      → q.be.qp.rp ≡ []
      → enqueue 0 0 p pl vec q ≢ (value 0, q')
  unfolding enqueue
  enqueue-full p pl vec q none_free ran = ground (arith, none_free, ran)

  Work-IsOrdered : {s t : System W} → Work sync s t → IsOrdered s → IsOrdered t
  unfolding perform
  Work-IsOrdered (sleep r w) h = record { fifo = h.fifo; once = h.once }
  Work-IsOrdered (leave r w) h = record { fifo = h.fifo; once = h.once }
  Work-IsOrdered {s} (start {e = e} {sq = sq} r w) h =
      let (eq, go) = turn-take s.q.be w in
      record {
        fifo = append_assoc s.started (e.ctx ∷ []) (ctxs_of sq) ∙ rw (← h.fifo, eq) refl;
        once = λ f. omega (arith, h.once f, ap (weight f) eq, weight-append f s.taken (e ∷ []));
      }
  Work-IsOrdered {s} (run xs e ys eq) h = record {
    fifo = h.fifo;
    once = λ f. omega (arith, h.once f, weight-split f xs e ys eq, weight-append f s.ran (e ∷ []));
  }
  Work-IsOrdered {s} (finish xs e ys eq) h = record {
    fifo = h.fifo;
    once = λ f.
        omega (arith, h.once f, weight-split f xs e ys eq, weight-append f s.q.be.qp.cq (e ∷ []));
  }

  enqueue-IsOrdered :
      {s : System W} (p : ℕ) (pl : Payload) (vec : Bool) {q' : Queue Thrpool W}
      → enqueue 0 0 p pl vec s.q ≡ (value 0, q')
      → IsOrdered s
      → IsOrdered (record s { q = q'; signal = true; submitted = s.submitted ++ p ∷ [] })
  enqueue-IsOrdered {s} p pl vec {q'} ran h = elim (uncons s.q.be.qp.rp) [
    | inl none_free ↦ absurd (enqueue-full p pl vec s.q none_free ran)
    | inr (e, rp, eq) ↦
        let (_, _, b, c, _, _, _) = enqueue-free p pl vec s.q eq in
        let e' : Entry = record e { ctx = p; payload = pl; is_vectored = vec } in
        let same : (enqueue 0 0 p pl vec s.q).1 ≡ q' = ap (λ r. r.1) ran in
        rw (← same) (record {
          fifo =
              ap (λ l. s.started ++ ctxs_of l) b
              ∙ ap (λ l. s.started ++ l) (ctxs_of-append s.q.be.qp.sq (e' ∷ []))
              ∙ sym (append_assoc s.started (ctxs_of s.q.be.qp.sq) (p ∷ []))
              ∙ ap (λ l. l ++ p ∷ []) h.fifo;
          once = λ f. omega (
            arith,
            h.once f,
            ap (weight f) b,
            ap (weight f) c,
            weight-append f s.q.be.qp.sq (e' ∷ []),
            total-append f s.submitted (p ∷ []),
          );
        })
  ]

  Use-IsOrdered : {n : ℕ} {s t : System W} → Use sync s t → IsValid n s → IsOrdered s → IsOrdered t
  unfolding thrpool_cmd_io thrpool_cmd_iov
  Use-IsOrdered (spurious w) v h = record { fifo = h.fifo; once = h.once }
  Use-IsOrdered (write cs w pool) v h = record { fifo = h.fifo; once = h.once }
  Use-IsOrdered (submit p pl quiet room eq) v h = enqueue-IsOrdered p _ _ eq h
  Use-IsOrdered (submit_iov p pl quiet room eq) v h = enqueue-IsOrdered p _ _ eq h
  Use-IsOrdered (signal_one sig w) v h = record { fifo = h.fifo; once = h.once }
  Use-IsOrdered (signal_none sig w) v h = record { fifo = h.fifo; once = h.once }
  Use-IsOrdered {s} (poke max quiet outside) v h =
      let k : ℕ = poke_max max s.q.outstanding in
      let cq : List Entry = s.q.be.qp.cq in
      let empty : s.polled ≡ [] = length-eq-zero s.polled (omega (arith, v.held, v.idle outside)) in
      record {
        fifo = h.fifo;
        once = λ f. omega (
          arith,
          h.once f,
          ap (weight f) empty,
          ap (weight f) (take-drop k cq),
          weight-append f (take k cq) (drop k cq),
        );
      }
  Use-IsOrdered {s} (call {e = e} quiet none_ eq) v h = record {
    fifo = h.fifo;
    once = λ f. omega (arith, h.once f, ap (weight f) eq, total-append f s.called (e.ctx ∷ []));
  }
  Use-IsOrdered (return quiet eq) v h = record { fifo = h.fifo; once = h.once }
  Use-IsOrdered (poke_end quiet busy none_ empty) v h = record { fifo = h.fifo; once = h.once }
  Use-IsOrdered (term quiet) v h = record { fifo = h.fifo; once = h.once }

  Reach-IsOrdered :
      {n : ℕ} {q0 : Queue Thrpool W} {s : System W}
      → IsValid n (initial n q0)
      → q0.outstanding ≡ 0
      → Reach sync n q0 s
      → IsOrdered s
  Reach-IsOrdered {q0 = q0} v idle begin =
      let no_sq : q0.be.qp.sq ≡ [] = length-eq-zero q0.be.qp.sq (omega (arith, v.counted)) in
      let no_cq : q0.be.qp.cq ≡ [] = length-eq-zero q0.be.qp.cq (omega (arith, v.counted)) in
      record {
        fifo = ap ctxs_of no_sq;
        once = λ f. omega (arith, ap (weight f) no_sq, ap (weight f) no_cq);
      }
  Reach-IsOrdered v idle (works r w) = Work-IsOrdered w (Reach-IsOrdered v idle r)
  Reach-IsOrdered v idle (uses r u) =
      Use-IsOrdered u (Reach-IsValid sync v r) (Reach-IsOrdered v idle r)

  -- Wherever the threads of a pool and its user stand that has been started with an entry for
  -- each command of its capacity and nothing outstanding: the commands started by threads, with
  -- those still queued behind them, are those submitted, in the order of submission; and each
  -- was submitted as often as it is queued, taken by a thread, run, on the completion queue, in
  -- the hands of poke() and has been called back, so none is lost, doubled or called back
  -- before it has run.
  pub commands-kept :
      {n : ℕ} {q0 : Queue Thrpool W} {s : System W}
      → IsValid n (initial n q0)
      → q0.outstanding ≡ 0
      → Reach sync n q0 s
      → (s.started ++ ctxs_of s.q.be.qp.sq ≡ s.submitted)
        × ((p : ℕ)
            → count p s.submitted
              ≡ count p (ctxs_of s.q.be.qp.sq)
                + count p (ctxs_of s.taken)
                + count p (ctxs_of s.ran)
                + count p (ctxs_of s.q.be.qp.cq)
                + count p (ctxs_of s.polled)
                + count p s.called)
  commands-kept v idle r =
      let h = Reach-IsOrdered v idle r in (h.fifo, λ p. h.once (λ x. if x == p then 1 else 0))
