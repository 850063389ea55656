-- ===== src/Thrpool/Inv.antt =====
-- The invariant of the thread pool: where its entries and its threads are, and what `outstanding`
-- counts.
use xnvme.Common.{
  ℕ, suc, ◌+◌, ◌≤◌, ◌<◌, ◌≡◌, ap, ◌≢◌, inl, inr, true, false, List, [], ◌∷◌, ◌++◌, length,
  length-append, uncons, arith, value, length-take, length-drop, refl, Bool, add32,
}
use xnvme.Cmd.{Payload}
use xnvme.Queue.{Queue}
use xnvme.Queue.Pass.{SyncOps}
use xnvme.Thrpool.{
  Entry, Thrpool, turn, wait, stop, take_, enqueue, thrpool_cmd_io, thrpool_cmd_iov, perform,
  poke_max,
}
use xnvme.Thrpool.System.{
  System, initial, Work, sleep, leave, start, run, finish, Use, spurious, write, submit, submit_iov,
  signal_one, signal_none, poke, call, return, poke_end, term, Reach, begin, works, uses,
}

pub record IsValid {W : Type 0} (n : ℕ) (s : System W) : Type 0 where
  pub entries :
      length s.q.be.qp.rp
        + length s.q.be.qp.sq
        + length s.taken
        + length s.ran
        + length s.q.be.qp.cq
        + length s.polled
        + length s.current
      ≡ s.q.capacity
  pub counted :
      s.q.outstanding
      ≡ length s.q.be.qp.sq + length s.taken + length s.ran + length s.q.be.qp.cq + s.completed
  pub held : length s.polled + length s.current ≤ s.completed
  pub bounded : s.q.outstanding ≤ s.q.capacity
  pub small : s.q.capacity < 4096
  pub threads : s.ready + s.waiting + s.stopped + length s.taken + length s.ran ≡ n
  pub manned : 0 < n
  pub idle : s.polling ≡ false → s.completed ≡ 0
  pub working : s.q.be.threads_stop ≡ false → s.stopped ≡ 0
  pub awake :
      s.q.be.threads_stop ≡ false → s.signal ≡ false → 0 < length s.q.be.qp.sq → s.waiting < n

pub length-split {ℓ} :
    {A : Type ℓ} (l xs : List A) (x : A) (ys : List A)
    → l ≡ xs ++ x ∷ ys
    → length l ≡ suc (length (xs ++ ys))
length-split l xs x ys e = rw e (grind (arith, length-append))

-- What a turn of a thread says of the pool.
pub turn-wait : (t : Thrpool) → turn t ≡ wait → t.qp.sq ≡ []
unfolding turn
turn-wait t h = ground arith

pub turn-stop : (t : Thrpool) → turn t ≡ stop → t.threads_stop ≡ true
unfolding turn
turn-stop t h = ground arith

pub turn-take :
    (t : Thrpool) {e : Entry} {sq : List Entry}
    → turn t ≡ take_ e sq
    → (t.qp.sq ≡ e ∷ sq) × (t.threads_stop ≡ false)
unfolding turn
turn-take t h = ground arith

-- The submission of a command where an entry is free.
module _ {W : Type 0} where
  pub enqueue-free :
      (p : ℕ) (pl : Payload) (vec : Bool) (q : Queue Thrpool W) {e : Entry} {rp : List Entry}
      → q.be.qp.rp ≡ e ∷ rp
      → let q1 = (enqueue 0 0 p pl vec q).1 in
        ((enqueue 0 0 p pl vec q).0 ≡ value 0)
        × (q1.be.qp.rp ≡ rp)
        × (q1.be.qp.sq ≡ q.be.qp.sq ++ record e { ctx = p; payload = pl; is_vectored = vec } ∷ [])
        × (q1.be.qp.cq ≡ q.be.qp.cq)
        × (q1.capacity ≡ q.capacity)
        × (q1.outstanding ≡ add32 q.outstanding 1)
        × (q1.be.threads_stop ≡ q.be.threads_stop)
  unfolding enqueue
  enqueue-free p pl vec q eq = ground (arith, eq)

module _ {W : Type 0} (sync : SyncOps W) {n : ℕ} where
  pub initial-IsValid :
      (q : Queue Thrpool W)
      → 0 < n
      → q.outstanding ≡ 0
      → q.capacity < 4096
      → length q.be.qp.rp ≡ q.capacity
      → q.be.qp.sq ≡ []
      → q.be.qp.cq ≡ []
      → IsValid n (initial n q)
  initial-IsValid q some_ idle small full no_sq no_cq = record {
    entries = omega (arith, full, ap length no_sq, ap length no_cq);
    counted = omega (arith, idle, ap length no_sq, ap length no_cq);
    held = omega arith;
    bounded = omega arith;
    small = small;
    threads = omega arith;
    manned = some_;
    idle = λ _. refl;
    working = λ _. refl;
    awake = λ _ _ _. some_;
  }

  pub Work-IsValid : {s t : System W} → Work sync s t → IsValid n s → IsValid n t
  unfolding perform
  Work-IsValid {s} (sleep r w) h = ground (arith, ap length (turn-wait s.q.be w))
  Work-IsValid {s} (leave r w) h = ground (arith, turn-stop s.q.be w)
  Work-IsValid {s} (start r w) h =
      let (sq, go) = turn-take s.q.be w in grind (arith, ap length sq, go, length-append)
  Work-IsValid (run xs e ys eq) h = grind (arith, length-split _ xs e ys eq, length-append)
  Work-IsValid (finish xs e ys eq) h = grind (arith, length-split _ xs e ys eq, length-append)

  -- A command is submitted from a state that has room.
  enqueue-IsValid :
      {s : System W} (p : ℕ) (pl : Payload) (vec : Bool) {q' : Queue Thrpool W} (sub : List ℕ)
      → s.q.outstanding ≢ s.q.capacity
      → enqueue 0 0 p pl vec s.q ≡ (value 0, q')
      → IsValid n s
      → IsValid n (record s { q = q'; signal = true; submitted = sub })
  enqueue-IsValid {s} p pl vec {q'} sub room ran h = elim (uncons s.q.be.qp.rp) [
    | inl none_free ↦
        absurd (omega (arith, h.entries, h.counted, h.held, ap length none_free, room, h.bounded))
    | inr (e, rp, eq) ↦
        let (_, a, b, c, d, f, g) = enqueue-free p pl vec s.q eq in
        let same : (enqueue 0 0 p pl vec s.q).1 ≡ q' = ap (λ r. r.1) ran in
        rw (← same) (grind (arith, a, b, c, d, f, g, ap length eq, length-append))
  ]

  pub Use-IsValid : {s t : System W} → Use sync s t → IsValid n s → IsValid n t
  unfolding thrpool_cmd_io thrpool_cmd_iov
  Use-IsValid (spurious w) h = ground arith
  Use-IsValid (write cs w pool) h = ground arith
  Use-IsValid (submit p pl quiet room eq) h = enqueue-IsValid p _ _ _ room eq h
  Use-IsValid (submit_iov p pl quiet room eq) h = enqueue-IsValid p _ _ _ room eq h
  Use-IsValid (signal_one sig w) h = ground arith
  Use-IsValid (signal_none sig w) h = ground arith
  Use-IsValid {s} (poke max quiet outside) h =
      let k : ℕ = poke_max max s.q.outstanding in
      ground (arith, length-take k s.q.be.qp.cq, length-drop k s.q.be.qp.cq)
  Use-IsValid (call quiet none_ eq) h = ground (arith, ap length eq, ap length none_)
  Use-IsValid (return quiet eq) h = grind (arith, ap length eq, length-append)
  Use-IsValid (poke_end quiet busy none_ empty) h = ground (arith, ap length empty, ap length none_)
  Use-IsValid (term quiet) h = ground arith

  -- In every state that is reached, the entries of the pool are where the model keeps them.
  pub Reach-IsValid :
      {q0 : Queue Thrpool W} {s : System W}
      → IsValid n (initial n q0)
      → Reach sync n q0 s
      → IsValid n s
  Reach-IsValid h begin = h
  Reach-IsValid h (works r w) = Work-IsValid w (Reach-IsValid h r)
  Reach-IsValid h (uses r u) = Use-IsValid u (Reach-IsValid h r)
