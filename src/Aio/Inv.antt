-- ===== src/Aio/Inv.antt =====
-- The invariant of the POSIX aio queue, and what a poke returns.
use xnvme.Common.{
  ℕ, zero, suc, ◌+◌, ◌≤◌, ◌<◌, ◌≡◌, ◌≢◌, refl, ap, ◌⊎◌, inl, inr, true, ◌==◌, List, [], ◌∷◌, none,
  length, length-append, arith, if◌then◌else◌, min, Ret, value, ℕ_discrete, Option-cases, ==_ne,
  ==_iff,
}
use xnvme.Queue.{Queue}
use xnvme.Queue.Pass.{SyncOps, Act}
use xnvme.Aio.{
  Request, PosixQueue, PosixAio, first_done, aio_call_back, fill_completion, reuse, aio_loop,
  aio_max, or_null, posix_poke,
}
use xnvme.Aio.Slots.{
  length-tailq_remove, first_done-has, occurs, occurs-append, occurs-tailq_remove,
}
use xnvme.Aio.Held.{IsValid, IsHolding, run_acts-IsHolding}

or_null-some :
    {W : Type 0} (rs : List Request) (q : Queue PosixQueue W) (ran : Ret × Queue PosixQueue W)
    → length rs ≢ 0
    → or_null rs q ran ≡ ran
unfolding or_null
or_null-some [] q ran h = absurd (omega arith)
or_null-some (r ∷ rs) q ran h = refl

-- The number of completions that poke() is asked for, cut to those outstanding.
abbrev pub poke_count : {W : Type 0} → ℕ → Queue PosixQueue W → ℕ
poke_count max q = if max == 0 then q.outstanding else min max q.outstanding

-- A walk over the outstanding requests found each of them in progress, and left this world.
pub record AllInProgress {W : Type 0} (aio : PosixAio W) (ssw : ℕ) (q : Queue PosixQueue W)
    : Type 0 where
  pub before : W
  pub none_done : (first_done aio ssw q.be.reqs_outstanding before).0 ≡ none
  pub after : (first_done aio ssw q.be.reqs_outstanding before).1 ≡ q.world

module _ {W : Type 0} (aio : PosixAio W) (ssw : ℕ) (sync : SyncOps W)
    (react : ℕ → Queue PosixQueue W → List (Act W)) where
  reuse-IsValid :
      (r : Request) (q : Queue PosixQueue W)
      → IsHolding r.slot q
      → IsValid (reuse aio ssw sync react r q)
  unfolding reuse occurs
  reuse-IsValid r q h =
      let less = length-tailq_remove r.slot q.be.reqs_outstanding h.holds in
      record {
        entries = grind (arith, h.valid.entries, length-append, less);
        counted = omega (arith, h.valid.counted, h.valid.entries, h.valid.small, less);
        once = λ s lt. omega (
          arith,
          occurs-append s q.be.reqs_ready (record r { ctx = 0 } ∷ []),
          occurs-tailq_remove s r.slot q.be.reqs_outstanding h.holds,
          h.valid.once s lt,
        );
        small = h.valid.small;
        safe = h.valid.safe;
      }

  -- One round of the loop, for a request that is done.
  round-IsValid :
      (r : Request) (err : ℕ) (q : Queue PosixQueue W)
      → IsHolding r.slot q
      → IsValid (
          reuse aio ssw sync react r
            (aio_call_back aio ssw sync react r (fill_completion aio ssw sync react r err q)))
  unfolding fill_completion
  round-IsValid r err q h =
      let q' : Queue PosixQueue W = fill_completion aio ssw sync react r err q in
      let h' : IsHolding r.slot q' = record {
        valid = record {
          entries = h.valid.entries;
          counted = h.valid.counted;
          once = h.valid.once;
          small = h.valid.small;
          safe = h.valid.safe;
        };
        holds = h.holds;
      } in
      reuse-IsValid r _ (run_acts-IsHolding aio ssw sync (react r.ctx q') q' h')

  aio_loop-IsValid :
      (n completed : ℕ) (q : Queue PosixQueue W)
      → IsValid q
      → let (k, q') = aio_loop aio ssw sync react n completed q in
        IsValid q'
        × ((k ≡ completed + n) ⊎ ((completed ≤ k) × (k < completed + n) × AllInProgress aio ssw q'))
  unfolding aio_loop
  aio_loop-IsValid zero completed q h = (h, inl (omega arith))
  aio_loop-IsValid (suc n) completed q h =
      elim (Option-cases (first_done aio ssw q.be.reqs_outstanding q.world).0) [
        | inl busy ↦
            rw (aio_loop, busy)
              (
                record {
                  entries = h.entries;
                  counted = h.counted;
                  once = h.once;
                  small = h.small;
                  safe = h.safe;
                },
                inr (
                  omega arith,
                  omega arith,
                  record { before = q.world; none_done = busy; after = refl },
                ),
              )
        | inr ((r, err), found) ↦
            let q1 : Queue PosixQueue W = record q {
              world = (first_done aio ssw q.be.reqs_outstanding q.world).1;
            } in
            let held : IsHolding r.slot q1 = record {
              valid = record {
                entries = h.entries;
                counted = h.counted;
                once = h.once;
                small = h.small;
                safe = h.safe;
              };
              holds = first_done-has aio ssw q.be.reqs_outstanding q.world r err found;
            } in
            let (v, ends) = aio_loop-IsValid n (completed + 1) _ (round-IsValid r err q1 held) in
            rw (aio_loop, found)
              (
                v,
                elim ends [
                  | inl all ↦ inl (omega (arith, all))
                  | inr (ge, lt, busy) ↦ inr (omega arith, omega arith, busy)
                ],
              )
      ]

  aio_max-eq : (max : ℕ) (q : Queue PosixQueue W) → aio_max max q.outstanding ≡ poke_count max q
  aio_max-eq max q = ground arith

  -- Whatever the callbacks do and aio_error() says, posix_poke() on a valid queue follows no
  -- NULL request and keeps the invariant: every slot of the storage is that of exactly one
  -- request in the two lists, ready or outstanding, there are no others, and `outstanding`
  -- counts those. It returns as many completions as were asked for, cut to those outstanding,
  -- or fewer where its last walk finds every outstanding request in progress.
  pub posix_poke-IsValid :
      (max : ℕ) (q : Queue PosixQueue W)
      → IsValid q
      → let (r, q') = posix_poke aio ssw sync react max q in
        IsValid q'
        × ((r ≡ value (poke_count max q))
            ⊎ ((k : ℕ) × (r ≡ value k) × (k < poke_count max q) × AllInProgress aio ssw q'))
  unfolding posix_poke
  posix_poke-IsValid max q h = elim (ℕ_discrete q.outstanding 0) [
    | yes idle ↦
        let test : (q.outstanding == 0) ≡ true = (==_iff _ 0).1 idle in
        rw test (h, inl (ap value (ground arith)))
    | no some_ ↦
        let (v, ends) = aio_loop-IsValid (aio_max max q.outstanding) 0 q h in
        let count : aio_max max q.outstanding ≡ poke_count max q = aio_max-eq max q in
        rw (==_ne _ 0 some_, or_null-some q.be.reqs_outstanding q _ (omega (arith, h.counted)))
          (
            v,
            elim ends [
              | inl all ↦ inl (ap value (omega (arith, all, count)))
              | inr (ge, lt, busy) ↦ inr (_, refl, omega (arith, lt, count), busy)
            ],
          )
  ]
