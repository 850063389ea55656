-- ===== src/Nvm/Roundtrip.antt =====
-- Commands prepared, passed to the emulated queue and drained.
use xnvme.Common.{
  ℕ, suc, ◌≤◌, ◌≡◌, ◌≢◌, sym, ap, ◌∙◌, [], ◌∷◌, some, length, length-append, arith, Ret, value,
  uncons, inl, inr, ==_refl, ==_ne,
}
use xnvme.Cmd.{Cmd, Ctx, Payload, update, io_mode, cmd_async}
use xnvme.Queue.{Queue}
use xnvme.Queue.Pass.{SyncOps, cmd_pass-async}
use xnvme.Queue.Drain.{drain}
use xnvme.Emu.{Qpair, narrow, emu_cmd_io, emu_async, emu_poke, mark}
use xnvme.Emu.Inv.{IsValid, emu_cmd_io-IsHeld}
use xnvme.Emu.Fifo.{noop, emu_cmd_io-fields, submit_all, run_narrowed, drain-narrowed}
use xnvme.Nvm.{with_cmd, issue}

-- A store read where it was written, and elsewhere.
update_self {ℓ} : {A : Type ℓ} (f : ℕ → A) (p : ℕ) (v : A) → update f p v p ≡ v
update_self f p v = rw (==_refl p)

update-else {ℓ} : {A : Type ℓ} (f : ℕ → A) {p r : ℕ} (v : A) → p ≢ r → update f p v r ≡ f r
update-else f {p} {r} v ne = rw (==_ne r p (λ e. ne (sym e)))

update-two {ℓ} :
    {A : Type ℓ} (f : ℕ → A) {p r : ℕ} (v w : A)
    → p ≢ r
    → (update (update f p v) r w p ≡ v) × (update (update f p v) r w r ≡ w)
update-two f {p} {r} v w ne = (
  update-else (update f p v) w (λ e. ne (sym e)) ∙ update_self f p v,
  update_self (update f p v) r w,
)

module _ {W : Type 0} where
  abbrev set_ctxs : (ℕ → Ctx) → Queue Qpair W → Queue Qpair W
  set_ctxs cs q = record q { ctxs = cs }

  -- Submission does not read the contexts.
  emu_cmd_io-set_ctxs :
      (p : ℕ) (pl : Payload) (cs : ℕ → Ctx) (q : Queue Qpair W)
      → (emu_cmd_io p pl (set_ctxs cs q)).1 ≡ set_ctxs cs (emu_cmd_io p pl q).1
  unfolding emu_cmd_io
  emu_cmd_io-set_ctxs p pl cs q = elim (uncons q.be.rp) [
    | inl none_free ↦ rw none_free
    | inr (e, rp, eq) ↦ rw eq
  ]

  set_ctxs-IsValid : (cs : ℕ → Ctx) (q : Queue Qpair W) → IsValid q → IsValid (set_ctxs cs q)
  set_ctxs-IsValid cs q h = record {
    entries = h.entries;
    counted = h.counted;
    ordered = h.ordered;
    bounded = h.bounded;
    small = h.small;
    floor = h.floor;
  }

  -- One command leaves room for another.
  submitted-room :
      (p : ℕ) (pl : Payload) (q : Queue Qpair W)
      → IsValid q
      → q.be.sq ≡ []
      → 2 ≤ q.capacity
      → (emu_cmd_io p pl q).1.outstanding ≢ (emu_cmd_io p pl q).1.capacity
  submitted-room p pl q h idle fits = elim (uncons q.be.rp) [
    | inl none_free ↦ absurd (omega (arith, ap length none_free, ap length idle, h.entries))
    | inr (e, rp, eq) ↦
        let (tail, _, _, size) = emu_cmd_io-fields p pl e rp q eq in
        let h1 = emu_cmd_io-IsHeld p pl q h (omega (arith, h.counted, ap length idle)) in
        grind (arith, h1.counted, ap length tail, ap length idle, size, length-append)
  ]

  module _ (sync : SyncOps W) where
    -- With room in the queue the command of a context of asynchronous mode is queued.
    issue-async :
        (p : ℕ) (f : Cmd → Cmd) (pl : Payload) (q : Queue Qpair W)
        → io_mode (q.ctxs p) ≡ cmd_async
        → q.outstanding ≢ q.capacity
        → issue emu_async sync p f pl q
          ≡ emu_cmd_io p pl (set_ctxs (update q.ctxs p (with_cmd f (q.ctxs p))) q)
    unfolding issue
    issue-async p f pl q mode room =
        let c : Ctx = with_cmd f (q.ctxs p) in
        cmd_pass-async emu_async sync p pl (set_ctxs (update q.ctxs p c) q)
          (ap io_mode (update_self q.ctxs p c) ∙ mode) room

    -- Two commands issued are two commands submitted when both contexts are prepared.
    issue_two-submit_all :
        (p r : ℕ) (f g : Cmd → Cmd) (plf plg : Payload) (q : Queue Qpair W)
        → IsValid q
        → q.be.sq ≡ []
        → 2 ≤ q.capacity
        → p ≢ r
        → io_mode (q.ctxs p) ≡ cmd_async
        → io_mode (q.ctxs r) ≡ cmd_async
        → (issue emu_async sync r g plg (issue emu_async sync p f plf q).1).1
          ≡ submit_all ((p, plf) ∷ (r, plg) ∷ []) (
              set_ctxs
                (update (update q.ctxs p (with_cmd f (q.ctxs p))) r (with_cmd g (q.ctxs r)))
                q)
    unfolding submit_all
    issue_two-submit_all p r f g plf plg q h idle fits ne mp mr =
        let csp : ℕ → Ctx = update q.ctxs p (with_cmd f (q.ctxs p)) in
        let qs : Queue Qpair W = (emu_cmd_io p plf q).1 in
        let other : csp r ≡ q.ctxs r = update-else q.ctxs (with_cmd f (q.ctxs p)) ne in
        let cs : ℕ → Ctx = update csp r (with_cmd g (q.ctxs r)) in
        let first = issue-async p f plf q mp (omega (arith, h.counted, ap length idle)) in
        let kept = emu_cmd_io-set_ctxs p plf csp q in
        let second =
          issue-async r g plg (set_ctxs csp qs) (ap io_mode other ∙ mr)
            (submitted-room p plf q h idle fits) in
        ap (λ x. (issue emu_async sync r g plg x.1).1) first
        ∙ ap (λ x. (issue emu_async sync r g plg x).1) kept
        ∙ ap (λ x. x.1) second
        ∙ ap (λ c. (emu_cmd_io r plg (set_ctxs (update csp r (with_cmd g c)) qs)).1) other
        ∙ ap (λ x. (emu_cmd_io r plg x).1) (sym (emu_cmd_io-set_ctxs p plf cs q))

    -- What the two commands do, one after the other.
    abbrev pub ran : ℕ → (Cmd → Cmd) → Payload → Ctx → W → Ret × Ctx × W
    ran p f pl c w = sync.cmd_io (with_cmd f c) (narrow (record pl { vec_cnt = 0 })) w

    -- The specification of the two, from contexts that are prepared.
    run_two :
        (p r : ℕ) (plf plg : Payload) (cs : ℕ → Ctx) (cp cr : Ctx) (w : W)
        → cs p ≡ cp
        → cs r ≡ cr
        → p ≢ r
        → let (e1, c1, w1) = sync.cmd_io cp (narrow (record plf { vec_cnt = 0 })) w in
          let (e2, c2, w2) = sync.cmd_io cr (narrow (record plg { vec_cnt = 0 })) w1 in
          run_narrowed sync ((p, plf) ∷ (r, plg) ∷ []) (cs, w)
          ≡ (update (update cs p (mark sync noop e1 c1)) r (mark sync noop e2 c2), w2)
    unfolding run_narrowed
    run_two p r plf plg cs cp cr w hp hr ne = rw (hp, update-else cs (mark sync noop _ _) ne, hr)

    -- Two commands
    pub issue_two-drain :
        (fuel p r : ℕ) (f g : Cmd → Cmd) (plf plg : Payload) (q : Queue Qpair W)
        → IsValid q
        → q.be.sq ≡ []
        → 2 ≤ q.capacity
        → p ≢ r
        → io_mode (q.ctxs p) ≡ cmd_async
        → io_mode (q.ctxs r) ≡ cmd_async
        → let q2 = (issue emu_async sync r g plg (issue emu_async sync p f plf q).1).1 in
          let (e1, c1, w1) = ran p f plf (q.ctxs p) q.world in
          let (e2, c2, w2) = ran r g plg (q.ctxs r) w1 in
          (q' : Queue Qpair W) × (drain (emu_poke sync noop) (suc (suc fuel)) q2
            ≡ some (value 2, q'))
          × (q'.world ≡ w2)
          × (q'.ctxs p ≡ mark sync noop e1 c1)
          × (q'.ctxs r ≡ mark sync noop e2 c2)
          × (q'.outstanding ≡ 0)
    unfolding run_narrowed
    issue_two-drain fuel p r f g plf plg q h idle fits ne mp mr =
        let cs : ℕ → Ctx =
          update (update q.ctxs p (with_cmd f (q.ctxs p))) r (with_cmd g (q.ctxs r)) in
        let (q', drained, same, out, _) =
          drain-narrowed sync fuel ((p, plf) ∷ (r, plg) ∷ []) (set_ctxs cs q)
            (set_ctxs-IsValid cs q h) idle fits in
        let prep = update-two q.ctxs (with_cmd f (q.ctxs p)) (with_cmd g (q.ctxs r)) ne in
        let (e1, c1, w1) = ran p f plf (q.ctxs p) q.world in
        let (e2, c2, w2) = ran r g plg (q.ctxs r) w1 in
        let m1 : Ctx = mark sync noop e1 c1 in
        let m2 : Ctx = mark sync noop e2 c2 in
        let two =
          run_two p r plf plg cs (with_cmd f (q.ctxs p)) (with_cmd g (q.ctxs r)) q.world prep.0
            prep.1 ne in
        let kept = update-two cs m1 m2 ne in
        (
          q',
          ap (drain (emu_poke sync noop) (suc (suc fuel)))
                (issue_two-submit_all p r f g plf plg q h idle fits ne mp mr)
              ∙ drained,
          ap (λ s. s.1) (same ∙ two),
          ap (λ s. s.0 p) (same ∙ two) ∙ kept.0,
          ap (λ s. s.0 r) (same ∙ two) ∙ kept.1,
          out,
        )
