-- ===== src/Uring/Setup/Shared.antt =====
-- The ring that the polled queues of io_uring share, over sequences of set-ups and terminations.
use xnvme.Common.{
  ℕ, zero, suc, ◌-◌, ◌≡◌, ap, ◌∙◌, ◌⊎◌, inl, inr, Bool, true, false, not, ◌&&◌, ◌==◌, if◌then◌else◌,
  List, [], ◌∷◌, Option, none, some, Option-cases, arith, Ret, is_err, Bool-cases,
}
use xnvme.Uring.{UringQueue}
use xnvme.Uring.Setup.{
  UringSys, SqpollWq, Settings, attaches, attach, release, open_ring, begin, leave_init, init_rings,
  liburing_init, close_ring, liburing_term,
}

-- The shared ring with the queues in use, the newest first, and the system.
pub record State (R W : Type 0) : Type 0 where
  pub wq : SqpollWq R
  pub queues : List (UringQueue R)
  pub world : W

-- `init` sets up a queue of so many entries with these options, from its zeroed memory, and
-- `term i` terminates the queue at place `i`, and nothing where there is none.
pub data Op (R : Type 0) : Type 0 where
  init : ℕ → ℕ → Settings → UringQueue R → Op R
  term : ℕ → Op R

-- The queues without the one at a place.
unfoldable pub without : {A : Type 0} → ℕ → List A → Option A × List A
without i [] = (none, [])
without zero (x ∷ xs) = (some x, xs)
without (suc i) (x ∷ xs) = let (found, rest) = without i xs in (found, x ∷ rest)

-- How many of the queues are polled.
unfoldable pub polled : {R : Type 0} → List (UringQueue R) → ℕ
polled [] = 0
polled (u ∷ us) = if u.poll_sq then suc (polled us) else polled us

-- A queue that is set up attaches to the shared ring if it is polled.
abbrev pub DoesAttach : {R : Type 0} → Op R → Type 0
DoesAttach (init n opts s u) = attaches s ≡ true
DoesAttach (term i) = Unit {0}

abbrev pub AllAttach : {R : Type 0} → List (Op R) → Type 0
AllAttach [] = Unit {0}
AllAttach (op ∷ ops) = DoesAttach op × AllAttach ops

-- The shared ring has so many references, and is open just while there is one.
pub record IsCounted {R : Type 0} (n : ℕ) (wq : SqpollWq R) : Type 0 where
  pub refs : wq.refcount ≡ n
  pub open_ : wq.is_initialized ≡ not (n == 0)

-- What setting up a queue leaves of the references: one more for a polled queue.
abbrev Keeps : {R W : Type 0} → ℕ → Ret × UringQueue R × SqpollWq R × W → Type 0
Keeps n (err, u, wq, w) = IsCounted (if is_err err then n else if u.poll_sq then suc n else n) wq

if-true :
    {A : Type 0} (P : A → Type 0) (b : Bool) (x y : A) → b ≡ true → P x → P (if b then x else y)
if-true P true x y h p = p
if-true P false x y h p = absurd (cc h)

if-false :
    {A : Type 0} (P : A → Type 0) (b : Bool) (x y : A) → b ≡ false → P y → P (if b then x else y)
if-false P true x y h p = absurd (cc h)
if-false P false x y h p = p

module _ {R W : Type 0} (sys : UringSys R W) where
  unfoldable pub run_op : Op R → State R W → State R W
  unfolding liburing_init liburing_term without
  run_op (init n opts settings u) s =
      let (err, u', wq', w') = liburing_init sys n opts settings u s.wq s.world in
      record { wq = wq'; queues = if is_err err then s.queues else u' ∷ s.queues; world = w' }
  run_op (term i) s =
      let (found, rest) = without i s.queues in
      elim found [
        | none ↦ s
        | some u ↦
            let (u', wq', w') = liburing_term sys u s.wq s.world in
            record { wq = wq'; queues = rest; world = w' }
      ]

  unfoldable pub run_ops : List (Op R) → State R W → State R W
  unfolding run_op
  run_ops [] s = s
  run_ops (op ∷ ops) s = run_ops ops (run_op op s)

  attach-IsCounted :
      (entries n : ℕ) (s : Settings) (wq : SqpollWq R) (w : W)
      → IsCounted n wq
      → let (err, wq', w') = attach sys entries s wq w in
        ((is_err err ≡ false) × IsCounted (suc n) wq')
        ⊎ ((is_err err ≡ true) × (n ≡ 0) × IsCounted 0 wq')
  unfolding attach
  attach-IsCounted entries n s wq w c = ground (arith, c.refs, c.open_)

  release-IsCounted :
      (n : ℕ) (wq : SqpollWq R) (w : W) → IsCounted n wq → IsCounted (n - 1) (release sys wq w).0
  unfolding release
  release-IsCounted n wq w c = ground (arith, c.refs, c.open_)

  open_ring-poll_sq :
      (entries opts : ℕ) (s : Settings) (wq_fd : Option ℕ) (u : UringQueue R) (w : W)
      → (open_ring sys entries opts s wq_fd u w).1.poll_sq ≡ u.poll_sq
  unfolding open_ring
  open_ring-poll_sq entries opts s wq_fd u w = ground arith

  -- What the label `exit` leaves, for a queue that has its reference.
  leave_init-IsCounted :
      (n : ℕ) (err : Ret) (u : UringQueue R) (wq : SqpollWq R) (w : W)
      → IsCounted (if u.poll_sq then suc n else n) wq
      → Keeps n (leave_init sys err u wq w)
  unfolding leave_init
  leave_init-IsCounted n err u wq w c =
      ground (arith, release-IsCounted (suc n) wq w, c.refs, c.open_)

  leave_init-failed :
      (n : ℕ) (err : Ret) (u : UringQueue R) (wq : SqpollWq R) (w : W)
      → is_err err ≡ true
      → n ≡ 0
      → IsCounted 0 wq
      → Keeps n (leave_init sys err u wq w)
  unfolding leave_init
  leave_init-failed n err u wq w bad none_ c =
      ground (arith, release-IsCounted 0 wq w c, c.refs, c.open_)

  init_rings-IsCounted :
      (attached : Bool) (n entries opts : ℕ) (s : Settings) (u : UringQueue R) (wq : SqpollWq R)
      (w : W)
      → u.poll_sq ≡ attached
      → IsCounted n wq
      → Keeps n (init_rings sys attached entries opts s u wq w)
  unfolding init_rings
  init_rings-IsCounted false n entries opts s u wq w plain c =
      let (err, u', w') = open_ring sys entries opts s none u w in
      let same : u'.poll_sq ≡ false = open_ring-poll_sq entries opts s none u w ∙ plain in
      leave_init-IsCounted n err u' wq w' (rw same c)
  init_rings-IsCounted true n entries opts s u wq w polls c =
      let (err, wq', w1) = attach sys entries s wq w in
      let fd : Option ℕ = some (sys.ring_fd wq'.ring) in
      let (err', u', w') = open_ring sys entries opts s fd u w1 in
      let same : u'.poll_sq ≡ true = open_ring-poll_sq entries opts s fd u w1 ∙ polls in
      elim (attach-IsCounted entries n s wq w c) [
        | inl (ok, c') ↦
            if-false (Keeps n) (is_err err) _ _ ok
              (leave_init-IsCounted n err' u' wq' w' (rw same c'))
        | inr (bad, none_, c') ↦
            if-true (Keeps n) (is_err err) _ _ bad (leave_init-failed n err u wq' w1 bad none_ c')
      ]

  liburing_init-IsCounted :
      (n entries opts : ℕ) (s : Settings) (u : UringQueue R) (wq : SqpollWq R) (w : W)
      → attaches s ≡ true
      → IsCounted n wq
      → Keeps n (liburing_init sys entries opts s u wq w)
  unfolding liburing_init
  liburing_init-IsCounted n entries opts s u wq w attached c =
      let u1 : UringQueue R = begin sys opts s u in
      init_rings-IsCounted (u1.poll_sq && attaches s) n entries opts s u1 wq w (ground arith) c

  liburing_term-IsCounted :
      (n : ℕ) (u : UringQueue R) (wq : SqpollWq R) (w : W)
      → IsCounted (if u.poll_sq then suc n else n) wq
      → IsCounted n (liburing_term sys u wq w).1
  unfolding liburing_term
  liburing_term-IsCounted n u wq w c =
      ground (arith, release-IsCounted (suc n) wq (close_ring sys u w).1, c.refs, c.open_)

  polled-without :
      (i : ℕ) (us : List (UringQueue R)) (u : UringQueue R)
      → (without i us).0 ≡ some u
      → polled us ≡ (if u.poll_sq then suc (polled (without i us).1) else polled (without i us).1)
  unfolding polled without
  polled-without i [] u found = absurd (cc found)
  polled-without zero (x ∷ us) u found =
      let same : x ≡ u = cc found in ap (λ v. polled (v ∷ us)) same
  polled-without (suc i) (x ∷ us) u found = ground (arith, polled-without i us u found)

  added-IsCounted :
      (err : Ret) (u : UringQueue R) (wq : SqpollWq R) (us : List (UringQueue R))
      → IsCounted
          (if is_err err then polled us else if u.poll_sq then suc (polled us) else polled us)
          wq
      → IsCounted (polled (if is_err err then us else u ∷ us)) wq
  unfolding polled
  added-IsCounted err u wq us c = elim (Bool-cases (is_err err)) [
    | inl bad ↦ rw bad (rw bad at c)
    | inr ok ↦ rw ok (rw ok at c)
  ]

  run_op-IsCounted :
      (op : Op R) (s : State R W)
      → DoesAttach op
      → IsCounted (polled s.queues) s.wq
      → IsCounted (polled (run_op op s).queues) (run_op op s).wq
  unfolding run_op polled
  run_op-IsCounted (init n opts settings u) s attached c =
      let (err, u', wq', w') = liburing_init sys n opts settings u s.wq s.world in
      added-IsCounted err u' wq' s.queues
        (liburing_init-IsCounted (polled s.queues) n opts settings u s.wq s.world attached c)
  run_op-IsCounted (term i) s a c = elim (Option-cases (without i s.queues).0) [
    | inl none_ ↦ rw (none_, run_op) c
    | inr (u, found) ↦
        rw (found, run_op)
          (liburing_term-IsCounted (polled (without i s.queues).1) u s.wq s.world
            (rw⁻¹ (polled-without i s.queues u found) c))
  ]

  -- Whatever polled and other queues of io_uring are set up and terminated, one after the
  -- other, with any settings under which polled queues attach, and whatever the system answers:
  -- if the shared ring had as many references as there are polled queues in use, and was
  -- initialized just while there is one, this stays so; failed set-ups leave no reference
  -- behind.
  pub run_ops-IsCounted :
      (ops : List (Op R)) (s : State R W)
      → AllAttach ops
      → IsCounted (polled s.queues) s.wq
      → IsCounted (polled (run_ops ops s).queues) (run_ops ops s).wq
  unfolding run_ops
  run_ops-IsCounted [] s a c = c
  run_ops-IsCounted (op ∷ ops) s (a, as_) c =
      run_ops-IsCounted ops (run_op op s) as_ (run_op-IsCounted op s a c)
