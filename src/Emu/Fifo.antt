-- ===== src/Emu/Fifo.antt =====
-- The emulated queue where callbacks do nothing, and the execution of its commands in order.
use xnvme.Common.{
  ℕ, zero, suc, ◌+◌, ◌-◌, ◌≤◌, ◌<◌, ◌%◌, ◌^◌, ◌≡◌, refl, sym, ap, inl, inr, uncons, length-eq-zero,
  ℕ_discrete, take-length, drop-length, sub_self, ◌∙◌, false, List, [], ◌∷◌, ◌++◌, some, length,
  length-append, append_assoc, append-nil, take, drop, arith, value,
}
use native.Mathlib.Nat.{add-zero}
use xnvme.Cmd.{Ctx, Payload, update}
use xnvme.Queue.{Queue}
use xnvme.Queue.Pass.{SyncOps, Act}
use xnvme.Queue.Drain.{drain, drain_from-done, drain_from-poke}
use xnvme.Emu.{Entry, Qpair, narrow, emu_cmd_io, poke_round, poke_loop, emu_poke, execute, mark}
use xnvme.Emu.Inv.{
  IsValid, emu_poke-of_loop, poke_max-eq, poke_count, poke_count-le, poke_count-sub,
  emu_cmd_io-IsHeld,
}

-- `callback_noop`, the callback that xnvme_queue_init() gives every context.
abbrev pub noop : {W : Type 0} → ℕ → Queue Qpair W → List (Act W)
noop p q = []

-- The contexts behind their pointers, and the world.
abbrev pub Store : Type 0 → Type 0
Store W = (ℕ → Ctx) × W

module _ {W : Type 0} (sync : SyncOps W) where
  -- The command of an entry run at once, in a store.
  unfoldable pub exec : Entry → Store W → Store W
  unfolding execute mark
  exec e (cs, w) =
      let (err, c, w') = execute sync noop e (cs e.ctx) w in
      (update cs e.ctx (mark sync noop err c), w')

  unfoldable pub exec_all : List Entry → Store W → Store W
  unfolding exec
  exec_all [] s = s
  exec_all (e ∷ es) s = exec_all es (exec e s)

  -- The queue when the entries `es` of it have been run, and `rest` is left.
  abbrev pub after : List Entry → List Entry → Queue Qpair W → Queue Qpair W
  after es rest q = record q {
    ctxs = (exec_all es (q.ctxs, q.world)).0;
    world = (exec_all es (q.ctxs, q.world)).1;
    be = record q.be { rp = q.be.rp ++ es; sq = rest };
  }

  poke_loop-exec :
      (n completed : ℕ) (sq : List Entry) (q : Queue Qpair W)
      → q.be.sq ≡ sq
      → n ≤ length sq
      → poke_loop sync noop n completed q ≡ some (completed + n, after (take n sq) (drop n sq) q)
  unfolding poke_loop exec_all
  poke_loop-exec zero completed sq q eq h = simp (append-nil, ← eq, add-zero)
  poke_loop-exec (suc n) completed [] q eq h = absurd (omega arith)
  poke_loop-exec (suc n) completed (e ∷ sq) q eq h =
      let sum : completed + 1 + n ≡ completed + suc n = omega arith in
      rw eq (
        poke_loop-exec n (completed + 1) sq (poke_round sync noop e sq q) refl (omega arith)
        ∙ simp (append_assoc, sum))

  -- Where callbacks do nothing, emu_poke() runs the oldest commands, as many as asked for and
  -- outstanding, one after the other, moves their entries from the head of the submission queue
  -- to the tail of the request pool, and subtracts them from `outstanding`.
  pub emu_poke-fifo :
      (max : ℕ) (q : Queue Qpair W)
      → IsValid q
      → emu_poke sync noop max q
        ≡ some (
          value (poke_count max q),
          record (after (take (poke_count max q) q.be.sq) (drop (poke_count max q) q.be.sq) q) {
            outstanding = q.outstanding - poke_count max q;
          },
        )
  emu_poke-fifo max q h =
      let n : ℕ = poke_count max q in
      let zero_add : 0 + n ≡ n = omega arith in
      emu_poke-of_loop sync noop max n n q (after (take n q.be.sq) (drop n q.be.sq) q)
        (poke_max-eq max q)
        (poke_loop-exec n 0 q.be.sq q refl (poke_count-le max q h) ∙ rw zero_add)
      ∙ ap
          (λ o.
            some (value n, record (after (take n q.be.sq) (drop n q.be.sq) q) { outstanding = o }))
          (poke_count-sub max q h)

-- Commands submitted without vectors: the pointers of their contexts, and their payloads.
abbrev pub Cmds : Type 0
Cmds = List (ℕ × Payload)

-- The entry that emu_cmd_io() makes of `e`.
abbrev queued_entry : Entry → ℕ → Payload → Entry
queued_entry e p pl = record e {
  ctx = p;
  payload = narrow (record pl { vec_cnt = 0 });
  is_vectored = false;
}

module _ {W : Type 0} where
  pub emu_cmd_io-fields :
      (p : ℕ) (pl : Payload) (e : Entry) (rp : List Entry) (q : Queue Qpair W)
      → q.be.rp ≡ e ∷ rp
      → let q1 = (emu_cmd_io p pl q).1 in
        (q1.be.sq ≡ q.be.sq ++ queued_entry e p pl ∷ [])
        × (q1.ctxs ≡ q.ctxs)
        × (q1.world ≡ q.world)
        × (q1.capacity ≡ q.capacity)
  unfolding emu_cmd_io
  emu_cmd_io-fields p pl e rp q eq = ground arith

  unfoldable pub submit_all : Cmds → Queue Qpair W → Queue Qpair W
  submit_all [] q = q
  submit_all ((p, pl) ∷ cmds) q = submit_all cmds (emu_cmd_io p pl q).1

module _ {W : Type 0} (sync : SyncOps W) where
  -- Every command run at once, with its sizes cut to 32 bits, and the error marked in its context.
  unfoldable pub run_narrowed : Cmds → Store W → Store W
  unfolding mark
  run_narrowed [] s = s
  run_narrowed ((p, pl) ∷ cmds) (cs, w) =
      let (err, c, w') = sync.cmd_io (cs p) (narrow (record pl { vec_cnt = 0 })) w in
      run_narrowed cmds (update cs p (mark sync noop err c), w')

  -- What submission leaves behind.
  record IsSubmitted (cmds : Cmds) (q q' : Queue Qpair W) : Type 0 where
    es : List Entry
    queued : q'.be.sq ≡ q.be.sq ++ es
    same : (s : Store W) → exec_all sync es s ≡ run_narrowed cmds s
    count : length es ≡ length cmds
    ctxs : q'.ctxs ≡ q.ctxs
    world : q'.world ≡ q.world
    valid : IsValid q'

  submit_all-IsSubmitted :
      (cmds : Cmds) (q : Queue Qpair W)
      → IsValid q
      → length q.be.sq + length cmds ≤ q.capacity
      → IsSubmitted cmds q (submit_all cmds q)
  unfolding submit_all run_narrowed exec_all
  submit_all-IsSubmitted [] q h fits = record {
    es = [];
    queued = sym (append-nil q.be.sq);
    same = λ s. refl;
    count = refl;
    ctxs = refl;
    world = refl;
    valid = h;
  }
  submit_all-IsSubmitted ((p, pl) ∷ cmds) q h fits = elim (uncons q.be.rp) [
    | inl empty ↦ absurd (omega (arith, ap length empty, h.entries))
    | inr (e, rp, eq) ↦
        let q1 : Queue Qpair W = (emu_cmd_io p pl q).1 in
        let (tail, kept, seen, cap) = emu_cmd_io-fields p pl e rp q eq in
        let r : IsSubmitted cmds q1 (submit_all cmds q1) =
          submit_all-IsSubmitted cmds q1 (emu_cmd_io-IsHeld p pl q h (omega arith)) (
            rw (tail, cap) (omega (arith, length-append {0} q.be.sq (queued_entry e p pl ∷ [])))) in
        record {
          es = queued_entry e p pl ∷ r.es;
          queued = r.queued ∙ rw tail (append_assoc q.be.sq (queued_entry e p pl ∷ []) r.es);
          same = λ s. r.same (exec sync (queued_entry e p pl) s);
          count = ap suc r.count;
          ctxs = r.ctxs ∙ kept;
          world = r.world ∙ seen;
          valid = r.valid;
        }
  ]

  emu_poke-all :
      (q : Queue Qpair W)
      → IsValid q
      → emu_poke sync noop 0 q
        ≡ some (value q.outstanding, record (after sync q.be.sq [] q) { outstanding = 0 })
  emu_poke-all q h =
      let n : ℕ = q.outstanding in
      let all : n ≡ length q.be.sq = omega (arith, h.counted) in
      emu_poke-fifo sync 0 q h
      ∙ rw (all, take-length q.be.sq, drop-length q.be.sq, sub_self (length q.be.sq))

  -- Draining takes two rounds of the loop at most: one that pokes, one that finds nothing left.
  pub drain-all :
      (fuel : ℕ) (q : Queue Qpair W)
      → IsValid q
      → drain (emu_poke sync noop) (suc (suc fuel)) q
        ≡ some (value q.outstanding, record (after sync q.be.sq [] q) { outstanding = 0 })
  unfolding drain exec_all
  drain-all fuel q h = elim (ℕ_discrete q.outstanding 0) [
    | yes none_left ↦
        let empty : q.be.sq ≡ [] = length-eq-zero q.be.sq (omega (arith, h.counted)) in
        drain_from-done (emu_poke sync noop) (suc fuel) 0 q none_left
        ∙ simp (empty, append-nil) (ground (arith, empty, none_left))
    | no more ↦
        let q' : Queue Qpair W = record (after sync q.be.sq [] q) { outstanding = 0 } in
        let zero_add : 0 + q.outstanding ≡ q.outstanding = omega arith in
        drain_from-poke (emu_poke sync noop) (suc fuel) 0 q.outstanding q q' more (emu_poke-all q h)
        ∙ drain_from-done (emu_poke sync noop) fuel (0 + q.outstanding) q' refl
        ∙ ap (λ n. some (value n, q')) zero_add
  ]

  -- Draining runs the commands with the sizes that their entries hold.
  pub drain-narrowed :
      (fuel : ℕ) (cmds : Cmds) (q : Queue Qpair W)
      → IsValid q
      → q.be.sq ≡ []
      → length cmds ≤ q.capacity
      → (q' : Queue Qpair W) × (drain (emu_poke sync noop) (suc (suc fuel)) (submit_all cmds q)
          ≡ some (value (length cmds), q'))
        × ((q'.ctxs, q'.world) ≡ run_narrowed cmds (q.ctxs, q.world))
        × (q'.outstanding ≡ 0)
        × (q'.be.sq ≡ [])
  drain-narrowed fuel cmds q h idle fits =
      let q1 : Queue Qpair W = submit_all cmds q in
      let r : IsSubmitted cmds q q1 =
        submit_all-IsSubmitted cmds q h (omega (arith, ap length idle)) in
      let queued : q1.be.sq ≡ r.es = r.queued ∙ ap (λ l. l ++ r.es) idle in
      let many : q1.outstanding ≡ length cmds =
        omega (arith, r.valid.counted, ap length queued, r.count) in
      (
        record (after sync q1.be.sq [] q1) { outstanding = 0 },
        drain-all fuel q1 r.valid ∙ rw many,
        rw (queued, r.ctxs, r.world) (r.same (q.ctxs, q.world)),
        refl,
        refl,
      )

-- Commands with payloads below 2^32 bytes.
abbrev pub AllSmall : Cmds → Type 0
AllSmall [] = Unit {0}
AllSmall ((p, pl) ∷ cmds) = (pl.nbytes < 2 ^ 32) × (pl.meta_nbytes < 2 ^ 32) × AllSmall cmds

module _ {W : Type 0} (sync : SyncOps W) where
  -- The specification: every command run at once, and the error marked in its context.
  unfoldable pub run_cmds : Cmds → Store W → Store W
  unfolding mark
  run_cmds [] s = s
  run_cmds ((p, pl) ∷ cmds) (cs, w) =
      let (err, c, w') = sync.cmd_io (cs p) (record pl { vec_cnt = 0 }) w in
      run_cmds cmds (update cs p (mark sync noop err c), w')

  run_narrowed-small :
      (cmds : Cmds) (s : Store W) → AllSmall cmds → run_narrowed sync cmds s ≡ run_cmds cmds s
  unfolding run_narrowed run_cmds
  run_narrowed-small [] s small = refl
  run_narrowed-small ((p, pl) ∷ cmds) (cs, w) (data_, meta, small) =
      let n : pl.nbytes % 2 ^ 32 ≡ pl.nbytes = omega arith in
      let m : pl.meta_nbytes % 2 ^ 32 ≡ pl.meta_nbytes = omega arith in
      simp (n, m) (run_narrowed-small cmds _ small)

  -- Whatever commands without vectors, with payloads below 2^32 bytes, are submitted to an
  -- idle, valid emulated queue that has room for them, draining it with two rounds of fuel or
  -- more returns how many there were, leaves the contexts and the world as if each command had
  -- been run when it was submitted, and leaves nothing outstanding; callbacks do nothing here.
  pub drain-sequential :
      (fuel : ℕ) (cmds : Cmds) (q : Queue Qpair W)
      → IsValid q
      → q.be.sq ≡ []
      → length cmds ≤ q.capacity
      → AllSmall cmds
      → (q' : Queue Qpair W) × (drain (emu_poke sync noop) (suc (suc fuel)) (submit_all cmds q)
          ≡ some (value (length cmds), q'))
        × ((q'.ctxs, q'.world) ≡ run_cmds cmds (q.ctxs, q.world))
        × (q'.outstanding ≡ 0)
        × (q'.be.sq ≡ [])
  drain-sequential fuel cmds q h idle fits small =
      let (q', drained, same, none_left, empty) = drain-narrowed sync fuel cmds q h idle fits in
      (q', drained, same ∙ run_narrowed-small cmds (q.ctxs, q.world) small, none_left, empty)
