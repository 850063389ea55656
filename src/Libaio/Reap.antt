-- ===== src/Libaio/Reap.antt =====
-- What _linux_libaio_poke() takes and counts.
use native.Mathlib.Nat.{mod-add-mod}
use xnvme.Common.{
  sum-cases, ℕ, zero, suc, ◌+◌, ◌%◌, ◌≤◌, ◌≡◌, ◌≢◌, refl, sym, ap, ◌∙◌, ◌⊎◌, inl, inr, Bool, true,
  false, ◌==◌, List, [], ◌∷◌, length, arith, if◌then◌else◌, min, value, Errno, fail, Bool-cases,
  ℕ_discrete, ==_ne, ==_iff,
}
use xnvme.Cmd.{update}
use xnvme.Queue.{Queue}
use xnvme.Queue.Pass.{SyncOps, Act, run_acts}
use xnvme.Libaio.{
  Event, LibaioQueue, Libaio, libaio_async, libaio_complete, copy_events, fetch_events, run_events,
  libaio_max, libaio_poke,
}
use xnvme.Libaio.Inv.{AllOwned, IsAio, IsValid, run_acts-IsValid}

module _ {A W : Type 0} (aio : Libaio A W) (held unset avail : A → ℕ)
    (is : IsAio aio held unset avail) (fd ssw : ℕ) where
  -- The events copied in `n` rounds, `k` events behind the head of the ring.
  record IsCopied (n k : ℕ) (a : A) (got : List Event × ℕ × A × W) : Type 0 where
    few : length got.0 ≤ n
    owned : AllOwned got.0
    last : got.1 ≡ (aio.head got.2 + (k + length got.0)) % aio.nr got.2
    there : k + length got.0 ≤ avail got.2
    same : held got.2 ≡ held a
    unset_same : unset got.2 ≡ unset a

  copy_events-IsCopied :
      (n k current : ℕ) (a : A) (w : W)
      → current ≡ (aio.head a + k) % aio.nr a
      → k ≤ avail a
      → unset a ≡ 0
      → IsCopied n k a (copy_events aio fd ssw n current a w)
  unfolding copy_events
  copy_events-IsCopied zero k current a w at_ le set = record {
    few = omega arith;
    owned = tt;
    last = at_ ∙ ap (λ x. (aio.head a + x) % aio.nr a) (omega arith);
    there = omega arith;
    same = refl;
    unset_same = refl;
  }
  copy_events-IsCopied (suc n) k current a w at_ le set =
      let (tail, a', w') = aio.tail a w in
      let (tail_at, more, head_same, nr_same, held_same, unset_same) = is.read a w in
      let at' : current ≡ (aio.head a' + k) % aio.nr a' = rw (head_same, nr_same) at_ in
      elim (ℕ_discrete current tail) [
        | yes stop ↦
            let test : (current == tail) ≡ true = (==_iff _ _).1 stop in
            rw test (record {
              few = omega arith;
              owned = tt;
              last = at' ∙ ap (λ x. (aio.head a' + x) % aio.nr a') (omega arith);
              there = omega (arith, more, le);
              same = held_same;
              unset_same = unset_same;
            })
        | no go ↦
            let next : ℕ = (current + 1) % aio.nr a' in
            let differs : k ≢ avail a' =
              λ e. go (at_ ∙ ap (λ x. (aio.head a + x) % aio.nr a) e ∙ sym tail_at) in
            let step : next ≡ (aio.head a' + suc k) % aio.nr a' =
              ap (λ x. (x + 1) % aio.nr a') at'
              ∙ mod-add-mod (aio.head a' + k) (aio.nr a') 1
              ∙ ap (λ x. x % aio.nr a') (omega arith) in
            let c =
              copy_events-IsCopied n (suc k) next a' w' step (omega (arith, more, le, differs))
                (unset_same ∙ set) in
            let rest : List Event × ℕ × A × W = copy_events aio fd ssw n next a' w' in
            let count : suc k + length rest.0 ≡ k + suc (length rest.0) = omega arith in
            rw (==_ne _ _ go) (record {
              few = omega (arith, c.few);
              owned = (
                rw at' (is.owned a' k (omega (arith, more, le, differs)) (unset_same ∙ set)),
                c.owned,
              );
              last = c.last ∙ ap (λ x. (aio.head rest.2 + x) % aio.nr rest.2) count;
              there = omega (arith, c.there);
              same = c.same ∙ held_same;
              unset_same = c.unset_same ∙ unset_same;
            })
      ]

  -- What the first part of poke() took, or an error of io_getevents() and nothing.
  abbrev IsFetched : ℕ → Bool → A → W → (Errno ⊎ List Event) × A × W → Type 0
  IsFetched max poll_io a w (got, a', w') =
      ((e : Errno) × (got ≡ inl e)
        × (aio.is_compatible a ≡ false)
        × ((aio.getevents (if poll_io then 0 else 1) max a w).0 ≡ inl e)
        × (held a' ≡ held a)
        × (unset a' ≡ unset a))
      ⊎ ((es : List Event) × (got ≡ inr es)
          × (length es ≤ max)
          × (held a' + length es ≡ held a)
          × (unset a' ≤ unset a)
          × AllOwned es)

  fetch_events-IsFetched :
      (max : ℕ) (poll_io : Bool) (a : A) (w : W)
      → unset a ≡ 0
      → IsFetched max poll_io a w (fetch_events aio fd ssw max poll_io a w)
  unfolding fetch_events
  fetch_events-IsFetched max poll_io a w set = elim (Bool-cases (aio.is_compatible a)) [
    | inr other_ ↦
        let min : ℕ = if poll_io then 0 else 1 in
        elim (sum-cases (aio.getevents min max a w).0) [
          | inl (e, eq) ↦
              let (held_same, unset_same) = is.missed min max a w e eq in
              rw (other_, fetch_events) (inl (e, eq, refl, eq, held_same, unset_same))
          | inr (es, eq) ↦
              let (few, took, less, owned) = is.got min max a w es eq in
              rw (other_, fetch_events) (inr (es, eq, few, took, less, owned set))
        ]
    | inl ring ↦
        let got : List Event × ℕ × A × W = copy_events aio fd ssw max (aio.head a) a w in
        let c =
          copy_events-IsCopied max 0 (aio.head a) a w
            (is.start a ∙ ap (λ x. x % aio.nr a) (omega arith)) (omega arith) set in
        let len : 0 + length got.0 ≡ length got.0 = omega arith in
        let at_ : got.1 ≡ (aio.head got.2 + length got.0) % aio.nr got.2 =
          c.last ∙ ap (λ x. (aio.head got.2 + x) % aio.nr got.2) len in
        let consumed = is.consumed got.2 (length got.0) (omega (arith, c.there)) in
        let took : held (aio.set_head got.1 got.2) + length got.0 ≡ held got.2 =
          rw at_ consumed.0 in
        let less : unset (aio.set_head got.1 got.2) ≤ unset got.2 = rw at_ consumed.1 in
        rw (ring, fetch_events)
          (inr (got.0, refl, c.few, took ∙ c.same, omega (arith, less, c.unset_same), c.owned))
  ]

-- The number of completions that poke() is asked for, cut to those outstanding.
abbrev pub poke_count : {A W : Type 0} → ℕ → Queue (LibaioQueue A) W → ℕ
poke_count max q = if max == 0 then q.outstanding else min max q.outstanding

module _ {A W : Type 0} (aio : Libaio A W) (held unset avail : A → ℕ)
    (is : IsAio aio held unset avail) (fd ssw : ℕ) (sync : SyncOps W)
    (react : ℕ → Queue (LibaioQueue A) W → List (Act W)) where
  run_events-IsValid :
      {k : ℕ} (es : List Event) (q : Queue (LibaioQueue A) W)
      → AllOwned es
      → IsValid held unset k q
      → let (is_null, q') = run_events aio fd ssw sync react es q in
        (is_null ≡ false) × IsValid held unset k q'
  unfolding run_events
  run_events-IsValid [] q owned v = (refl, v)
  run_events-IsValid (e ∷ es) q ((p, eq), owned) v =
      let q' : Queue (LibaioQueue A) W = record q {
        ctxs = update q.ctxs p (libaio_complete aio fd ssw sync react e.res (q.ctxs p));
      } in
      rw (eq, run_events)
        (run_events-IsValid es (run_acts (libaio_async aio fd ssw) sync (react p q') q') owned (
          run_acts-IsValid aio held unset avail is fd ssw sync (react p q') q' (record {
            counted = v.counted;
            owned = v.owned;
            bounded = v.bounded;
            small = v.small;
          })))

  libaio_max-eq :
      (max : ℕ) (q : Queue (LibaioQueue A) W) → libaio_max max q.outstanding ≡ poke_count max q
  libaio_max-eq max q = ground arith

  -- On a queue whose `outstanding` counts the control blocks that libaio holds, each of them
  -- with a context, _linux_libaio_poke() keeps this, whatever the callbacks do, whether it
  -- copies events from the ring or calls io_getevents(). It returns at most as many completions
  -- as were asked for, cut to those outstanding, or, where the ring cannot be read, the error
  -- of io_getevents() for that number, with `outstanding` and the contexts unchanged.
  pub libaio_poke-IsValid :
      (max : ℕ) (q : Queue (LibaioQueue A) W)
      → IsValid held unset 0 q
      → let (r, q') = libaio_poke aio fd ssw sync react max q in
        IsValid held unset 0 q'
        × (((k : ℕ) × (r ≡ value k) × (k ≤ poke_count max q))
            ⊎ ((e : Errno) × (r ≡ fail e)
                × (aio.is_compatible q.be.aio_ctx ≡ false)
                × ((aio.getevents
                      (if q.be.poll_io then 0 else 1)
                      (poke_count max q)
                      q.be.aio_ctx
                      q.world).0
                    ≡ inl e)
                × (q'.outstanding ≡ q.outstanding)
                × (q'.ctxs ≡ q.ctxs)))
  unfolding libaio_poke
  libaio_poke-IsValid max q v =
      let n : ℕ = libaio_max max q.outstanding in
      let count : n ≡ poke_count max q = libaio_max-eq max q in
      elim (fetch_events-IsFetched aio held unset avail is fd ssw n q.be.poll_io q.be.aio_ctx
        q.world v.owned) [
          | inl (e, eq, other_, error, held_same, unset_same) ↦
              let error' : (aio.getevents (if q.be.poll_io then 0 else 1) (poke_count max q)
                    q.be.aio_ctx q.world).0
                  ≡ inl e =
                rw⁻¹ count error in
              rw (eq, libaio_poke)
                (
                  record {
                    counted = omega (arith, v.counted, held_same);
                    owned = unset_same ∙ v.owned;
                    bounded = v.bounded;
                    small = v.small;
                  },
                  inr (e, refl, other_, error', refl, refl),
                )
          | inr (es, eq, few, took, less, owned) ↦
              let (got, a, w) = fetch_events aio fd ssw n q.be.poll_io q.be.aio_ctx q.world in
              let q1 : Queue (LibaioQueue A) W = record q {
                be = record q.be { aio_ctx = a };
                world = w;
              } in
              let (no_null, v2) = run_events-IsValid {k = length es} es q1 owned (record {
                counted = omega (arith, v.counted, took);
                owned = omega (arith, v.owned, less);
                bounded = v.bounded;
                small = v.small;
              }) in
              rw (eq, libaio_poke, no_null)
                (
                  record {
                    counted = omega (arith, v2.counted, v2.bounded, v2.small);
                    owned = v2.owned;
                    bounded = omega (arith, v2.counted, v2.bounded, v2.small);
                    small = v2.small;
                  },
                  inl (length es, refl, omega (arith, few, count)),
                )
        ]
