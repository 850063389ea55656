-- ===== src/Emu/Inv.antt =====
-- The invariant of the emulated queue: its entries, and what `outstanding` counts.
use xnvme.Common.{
  ℕ, zero, suc, ◌+◌, ◌-◌, ◌≤◌, ◌<◌, ◌≡◌, ap, ◌∙◌, ◌≢◌, inl, inr, List, [], ◌∷◌, some, length,
  length-append, uncons, arith, ◌==◌, if◌then◌else◌, value, min, sub32,
}
use xnvme.Cmd.{Payload}
use xnvme.Queue.{Queue}
use xnvme.Queue.Pass.{
  SyncOps, Act, get_ctx, put_ctx, prepare, touch, submit, submit_iov, cmd_pass, cmd_pass_iov,
  run_act, run_acts,
}
use xnvme.Emu.{
  Entry, Qpair, emu_async, recycle, poke_round, emu_cmd_io, emu_cmd_iov, perform, poke_loop,
  poke_max, emu_poke,
}

-- The state with `j` entries in the hands of poke(), which has yet to subtract `k`, and with at
-- least `m` entries submitted.
pub record IsHeld {W : Type 0} (j k m : ℕ) (q : Queue Qpair W) : Type 0 where
  pub entries : length q.be.rp + length q.be.sq + j ≡ q.capacity
  pub counted : q.outstanding ≡ length q.be.sq + k
  pub ordered : j ≤ k
  pub bounded : q.outstanding ≤ q.capacity
  pub small : q.capacity < 4096
  pub floor : m ≤ length q.be.sq

abbrev pub IsValid : {W : Type 0} → Queue Qpair W → Type 0
IsValid q = IsHeld 0 0 0 q

module _ {W : Type 0} {j k m : ℕ} (p : ℕ) (pl : Payload) (q : Queue Qpair W)
    (h : IsHeld j k m q) where
  pub emu_cmd_io-IsHeld : q.outstanding ≢ q.capacity → IsHeld j k m (emu_cmd_io p pl q).1
  unfolding emu_cmd_io
  emu_cmd_io-IsHeld ne = grind (arith, length-append)

  emu_cmd_iov-IsHeld : q.outstanding ≢ q.capacity → IsHeld j k m (emu_cmd_iov p pl q).1
  unfolding emu_cmd_iov
  emu_cmd_iov-IsHeld ne = grind (arith, length-append)

  -- Submission succeeds while the queue is not full.
  emu_cmd_io-value : q.outstanding ≢ q.capacity → (emu_cmd_io p pl q).0 ≡ value 0
  unfolding emu_cmd_io
  emu_cmd_io-value ne = ground arith

module _ {W : Type 0} (sync : SyncOps W) {j k m : ℕ} where
  cmd_pass-IsHeld :
      (p : ℕ) (pl : Payload) (q : Queue Qpair W)
      → IsHeld j k m q
      → IsHeld j k m (cmd_pass emu_async sync p pl q).1
  unfolding cmd_pass
  cmd_pass-IsHeld p pl q h = ground (arith, emu_cmd_io-IsHeld p pl q h)

  cmd_pass_iov-IsHeld :
      (p : ℕ) (pl : Payload) (q : Queue Qpair W)
      → IsHeld j k m q
      → IsHeld j k m (cmd_pass_iov emu_async sync p pl q).1
  unfolding cmd_pass_iov
  cmd_pass_iov-IsHeld p pl q h = ground (arith, emu_cmd_iov-IsHeld p pl q h)

  run_act-IsHeld :
      (a : Act W) (q : Queue Qpair W) → IsHeld j k m q → IsHeld j k m (run_act emu_async sync a q)
  unfolding run_act
  run_act-IsHeld get_ctx q h = ground arith
  run_act-IsHeld (put_ctx p) q h = ground arith
  run_act-IsHeld (prepare p c) q h = ground arith
  run_act-IsHeld (touch w) q h = ground arith
  run_act-IsHeld (submit p pl) q h = cmd_pass-IsHeld p pl q h
  run_act-IsHeld (submit_iov p pl) q h = cmd_pass_iov-IsHeld p pl q h

  pub run_acts-IsHeld :
      (as_ : List (Act W)) (q : Queue Qpair W)
      → IsHeld j k m q
      → IsHeld j k m (run_acts emu_async sync as_ q)
  unfolding run_acts
  run_acts-IsHeld [] q h = h
  run_acts-IsHeld (a ∷ as_) q h =
      run_acts-IsHeld as_ (run_act emu_async sync a q) (run_act-IsHeld a q h)

-- The number of completions that poke() is asked for, cut to those outstanding.
abbrev pub poke_count : {W : Type 0} → ℕ → Queue Qpair W → ℕ
poke_count max q = if max == 0 then q.outstanding else min max q.outstanding

module _ {W : Type 0} where
  pub poke_max-eq : (max : ℕ) (q : Queue Qpair W) → poke_max max q.outstanding ≡ poke_count max q
  poke_max-eq max q = ground arith

  IsHeld-count : (max : ℕ) (q : Queue Qpair W) → IsValid q → IsHeld 0 0 (poke_count max q) q
  IsHeld-count max q h = ground arith

  pub poke_count-le : (max : ℕ) (q : Queue Qpair W) → IsValid q → poke_count max q ≤ length q.be.sq
  poke_count-le max q h = ground arith

  pub poke_count-sub :
      (max : ℕ) (q : Queue Qpair W)
      → IsValid q
      → sub32 q.outstanding (poke_count max q) ≡ q.outstanding - poke_count max q
  poke_count-sub max q h = ground arith

  -- The completions are subtracted at the end.
  settle :
      (n : ℕ) (q : Queue Qpair W)
      → IsHeld 0 n 0 q
      → IsValid (record q { outstanding = sub32 q.outstanding n })
  settle n q h = omega arith

module _ {W : Type 0} (sync : SyncOps W) (react : ℕ → Queue Qpair W → List (Act W)) where
  perform-IsHeld :
      {j k m : ℕ} (e : Entry) (q : Queue Qpair W)
      → IsHeld j k m q
      → IsHeld j k m (perform sync react e q)
  unfolding perform
  perform-IsHeld e q h = record {
    entries = h.entries;
    counted = h.counted;
    ordered = h.ordered;
    bounded = h.bounded;
    small = h.small;
    floor = h.floor;
  }

  recycle-IsHeld :
      {k m : ℕ} (e : Entry) (q : Queue Qpair W)
      → IsHeld 1 k m q
      → IsHeld 0 k m (recycle sync react e q)
  recycle-IsHeld e q h = grind (arith, length-append)

  -- One round of the loop: the entry is taken, run, called back and recycled.
  poke_round-IsHeld :
      {k m : ℕ} (e : Entry) (sq : List Entry) (q : Queue Qpair W)
      → q.be.sq ≡ e ∷ sq
      → IsHeld 0 k (suc m) q
      → IsHeld 0 (k + 1) m (poke_round sync react e sq q)
  unfolding poke_round
  poke_round-IsHeld {k} {m} e sq q eq h =
      let taken : Queue Qpair W = record q { be = record q.be { sq = sq } } in
      let held : IsHeld 1 (k + 1) m taken = ground (arith, ap length eq) in
      let ran : Queue Qpair W = perform sync react e taken in
      recycle-IsHeld e _ (run_acts-IsHeld sync (react e.ctx ran) ran (perform-IsHeld e taken held))

  -- Every round finds an entry.
  poke_loop-some :
      (n completed : ℕ) (q : Queue Qpair W)
      → IsHeld 0 completed n q
      → (q' : Queue Qpair W) × (poke_loop sync react n completed q ≡ some (completed + n, q'))
        × IsHeld 0 (completed + n) 0 q'
  unfolding poke_loop
  poke_loop-some zero completed q h =
      let e : completed + 0 ≡ completed = omega arith in (q, rw e, rw e h)
  poke_loop-some (suc n) completed q h = elim (uncons q.be.sq) [
    | inl empty ↦ absurd (omega (arith, ap length empty, h.floor))
    | inr (e, sq, eq) ↦
        let (q', ran, held) =
          poke_loop-some n (completed + 1) (poke_round sync react e sq q)
            (poke_round-IsHeld e sq q eq h) in
        let sum : completed + 1 + n ≡ completed + suc n = omega arith in
        (q', rw eq (rw (← sum) ran), rw (← sum) held)
  ]

  -- What emu_poke() makes of the result of its loop.
  pub emu_poke-of_loop :
      (max n c : ℕ) (q q' : Queue Qpair W)
      → poke_max max q.outstanding ≡ n
      → poke_loop sync react n 0 q ≡ some (c, q')
      → emu_poke sync react max q
        ≡ some (value c, record q' { outstanding = sub32 q'.outstanding c })
  unfolding emu_poke
  emu_poke-of_loop max n c q q' en ran = rw (emu_poke, en, ran)

  -- Whatever the callbacks do, emu_poke() on a valid queue follows no NULL entry, returns as
  -- many completions as were asked for, cut to those outstanding, and keeps the invariant: no
  -- entry is lost, and `outstanding` counts those submitted.
  pub emu_poke-IsValid :
      (max : ℕ) (q : Queue Qpair W)
      → IsValid q
      → (q' : Queue Qpair W) × (emu_poke sync react max q ≡ some (value (poke_count max q), q'))
        × IsValid q'
  emu_poke-IsValid max q h =
      let n : ℕ = poke_count max q in
      let (q', ran, held) = poke_loop-some n 0 q (IsHeld-count max q h) in
      let zero_add : 0 + n ≡ n = omega arith in
      (
        record q' { outstanding = sub32 q'.outstanding (0 + n) },
        emu_poke-of_loop max n (0 + n) q q' (poke_max-eq max q) ran
            ∙ ap (λ c. some (value c, record q' { outstanding = sub32 q'.outstanding (0 + n) }))
                zero_add,
        settle (0 + n) q' held,
      )
