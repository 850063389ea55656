-- ===== src/Uring/Tests.antt =====
-- A ring as two numbers: the entries that are filled and not submitted, and those that are
-- submitted and complete at once, with the result 512.
use xnvme.Common.{
  ℕ, zero, suc, ◌+◌, ◌-◌, ◌≤◌, ◌≡◌, refl, ◌⊎◌, true, false, List, [], ◌∷◌, none, some, Option,
  arith, Ret, value, is_neg,
}
use xnvme.Cmd.{Ctx, Payload}
use xnvme.Queue.{Queue, fresh_ctx, zero_cmd}
use xnvme.Queue.Pass.{SyncOps, Act, get_ctx, put_ctx, prepare, submit, run_acts}
use xnvme.Uring.{UringQueue, Liburing, liburing_async, liburing_poke}
use xnvme.Uring.Inv.{IsRing, IsValid, poke_count, run_acts-IsValid, liburing_poke-IsValid}

abbrev Ring : Type 0
Ring = ℕ × ℕ

abbrev peek : Ring → ℕ → Option (ℕ × Ret) × Ring × ℕ
peek (filled, zero) w = (none, (filled, zero), w)
peek (filled, suc n) w = (some (0, value 512), (filled, suc n), w)

abbrev instant : Liburing Ring ℕ
instant = record {
  get_sqe = λ r. (true, (r.0 + 1, r.1));
  fill = λ e r. r;
  submit = λ r w. (value r.0, (0, r.1 + r.0), w + 1);
  peek_cqe = peek;
  cqe_seen = λ r. (r.0, r.1 - 1);
}

abbrev held : Ring → ℕ
held r = r.0 + r.1

peeked : (r : Ring) (w : ℕ) → held (peek r w).1 ≡ held r
peeked (filled, zero) w = refl
peeked (filled, suc n) w = refl

seen :
    (r : Ring) (w : ℕ) (c : ℕ × Ret)
    → (peek r w).0 ≡ some c
    → held (instant.cqe_seen (peek r w).1) + 1 ≡ held r
seen (filled, zero) w c h = absurd (cc h)
seen (filled, suc n) w c h = omega arith

instant-IsRing : IsRing instant held
instant-IsRing = record {
  got = λ r h. omega arith;
  full = λ r h. absurd (cc h);
  filled = λ e r. refl;
  submitted = λ r w. omega arith;
  peeked = peeked;
  seen = seen;
}

abbrev idle : Queue (UringQueue Ring) ℕ
idle = record {
  capacity = 2;
  outstanding = 0;
  pool = 0 ∷ 1 ∷ [];
  ctxs = fresh_ctx;
  be = record { ring = (0, 0); poll_sq = false; poll_io = false; batching = true; efd = none };
  world = 100;
}

idle-IsValid : IsValid held idle
idle-IsValid = record {
  counted = refl;
  bounded = omega arith;
  small = omega arith;
  batching = refl;
}

abbrev pl8 : Payload
pl8 = record { buf = 64; nbytes = 8; vec_cnt = 0; meta = 0; meta_nbytes = 0 }

abbrev none_sync : SyncOps ℕ
none_sync = record { cmd_io = λ c pl w. (value 0, c, w); cmd_iov = λ c pl w. (value 0, c, w) }

abbrev read : Ctx
read = record (fresh_ctx 0) { cmd = record zero_cmd { opcode = 2 } }

-- A callback that puts its context back, takes another and submits it.
abbrev renew : ℕ → Queue (UringQueue Ring) ℕ → List (Act ℕ)
renew p q = put_ctx p ∷ get_ctx ∷ prepare p read ∷ submit p pl8 ∷ []

-- Two commands submitted.
abbrev loads : List (Act ℕ)
loads = prepare 0 read ∷ prepare 1 read ∷ submit 0 pl8 ∷ submit 1 pl8 ∷ []

abbrev loaded : Queue (UringQueue Ring) ℕ
loaded = run_acts (liburing_async instant 3 9) none_sync loads idle

loaded-IsValid : IsValid held loaded
loaded-IsValid = run_acts-IsValid instant held instant-IsRing 3 9 none_sync loads idle idle-IsValid

liburing_poke-IsValid_example :
    let (r, q') = liburing_poke instant 3 9 none_sync renew 0 loaded in
    IsValid held q'
    × (((k : ℕ) × (r ≡ value k) × (k ≤ poke_count 0 loaded))
        ⊎ ((is_neg r ≡ true)
            × (r ≡ (instant.submit loaded.be.ring loaded.world).0)
            × (q'.outstanding ≡ loaded.outstanding)))
liburing_poke-IsValid_example =
    liburing_poke-IsValid instant held instant-IsRing 3 9 none_sync renew 0 loaded loaded-IsValid
