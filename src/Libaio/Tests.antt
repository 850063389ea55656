-- ===== src/Libaio/Tests.antt =====
-- A ring of four places, of which three can be used: control blocks complete when they are
-- submitted, with the result 512. A context is the head with the number of events.
use xnvme.Common.{
  ℕ, ◌+◌, ◌-◌, ◌%◌, ◌≤◌, ◌≡◌, ◌≢◌, refl, ◌⊎◌, inr, true, List, [], ◌∷◌, Option, none, some, arith,
  ◌==◌, if◌then◌else◌, Ret, value, fail, errno_of, Errno, inl, false, length, ==_ne, ==_iff,
  ℕ_discrete,
}
use xnvme.Cmd.{Ctx, Payload}
use xnvme.Queue.{Queue, fresh_ctx, zero_cmd}
use xnvme.Queue.Pass.{SyncOps, Act, get_ctx, put_ctx, prepare, submit, run_acts}
use xnvme.Libaio.{Iocb, Event, LibaioQueue, Libaio, libaio_async, libaio_poke}
use xnvme.Libaio.Inv.{null_data, AllOwned, IsAio, IsValid, run_acts-IsValid}
use xnvme.Libaio.Reap.{poke_count, libaio_poke-IsValid}

abbrev Ring : Type 0
Ring = ℕ × ℕ × ℕ

abbrev avail : Ring → ℕ
avail a = a.1 % 4

abbrev unset : Ring → ℕ
unset a = a.2

abbrev submit_one : Iocb → Ring → ℕ → Ret × Ring × ℕ
submit_one i a w =
    if avail a == 3
    then (fail (errno_of 11), a, w)
    else (value 1, (a.0, avail a + 1, a.2 + null_data i), w)

-- The `data` of the events.
abbrev event_data : Ring → Option ℕ
event_data a = if unset a == 0 then some 0 else none

abbrev instant : Libaio Ring ℕ
instant = record {
  queue_init = λ n w. (value 0, (0, 0, 0), w);
  destroy = λ a w. w;
  eventfd = λ w. (value 5, w);
  close = λ fd w. w;
  submit = λ i a w. submit_one i a w;
  getevents = λ lo hi a w. (inr [], a, w);
  is_compatible = λ a. true;
  nr = λ a. 4;
  head = λ a. a.0 % 4;
  tail = λ a w. ((a.0 % 4 + avail a) % 4, a, w);
  events = λ a i. record { data_ = event_data a; res = value 512 };
  set_head = λ h a. (h, avail a - (h + 4 - a.0 % 4) % 4, a.2);
}

taken :
    (i : Iocb) (a : Ring) (w : ℕ)
    → (submit_one i a w).0 ≡ value 1
    → (avail (submit_one i a w).1 ≡ avail a + 1)
      × (unset (submit_one i a w).1 ≡ unset a + null_data i)
taken i a w h = elim (ℕ_discrete (avail a) 3) [
  | yes full ↦ absurd (ground arith)
  | no room ↦ rw (==_ne _ 3 room) (omega arith, refl)
]

refused :
    (i : Iocb) (a : Ring) (w : ℕ)
    → (submit_one i a w).0 ≢ value 1
    → (avail (submit_one i a w).1 ≡ avail a) × (unset (submit_one i a w).1 ≡ unset a)
refused i a w h = elim (ℕ_discrete (avail a) 3) [
  | yes full ↦ ground arith
  | no room ↦ absurd (h (rw (==_ne _ 3 room) refl))
]

no_events :
    (hi : ℕ) (a : Ring) (es : List Event)
    → (instant.getevents 0 hi a 0).0 ≡ inr es
    → (length es ≤ hi)
      × (avail a + length es ≡ avail a)
      × (unset a ≤ unset a)
      × (unset a ≡ 0 → AllOwned es)
no_events hi a [] h = (omega arith, omega arith, omega arith, λ z. tt)
no_events hi a (e ∷ es) h = absurd (cc h)

owned_event : (a : Ring) → unset a ≡ 0 → event_data a ≡ some 0
owned_event a z = let test : (unset a == 0) ≡ true = (==_iff _ 0).1 z in rw test

instant-IsAio : IsAio instant avail unset avail
instant-IsAio = record {
  taken = λ i a w h. taken i a w h;
  refused = λ i a w h. refused i a w h;
  got = λ lo hi a w es h. no_events hi a es h;
  missed = λ lo hi a w e h. (refl, refl);
  read = λ a w. (refl, omega arith, refl, refl, refl, refl);
  start = λ a. omega arith;
  owned = λ a k h z. (0, owned_event a z);
  consumed = λ a k h. (omega arith, omega arith);
}

abbrev idle : Queue (LibaioQueue Ring) ℕ
idle = record {
  capacity = 2;
  outstanding = 0;
  pool = 0 ∷ 1 ∷ [];
  ctxs = fresh_ctx;
  be = record { aio_ctx = (3, 0, 0); poll_io = true; efd = none };
  world = 100;
}

idle-IsValid : IsValid avail unset 0 idle
idle-IsValid = record {
  counted = omega arith;
  owned = refl;
  bounded = omega arith;
  small = omega arith;
}

abbrev pl8 : Payload
pl8 = record { buf = 64; nbytes = 8; vec_cnt = 0; meta = 0; meta_nbytes = 0 }

abbrev none_sync : SyncOps ℕ
none_sync = record { cmd_io = λ c pl w. (value 0, c, w); cmd_iov = λ c pl w. (value 0, c, w) }

abbrev read : Ctx
read = record (fresh_ctx 0) { cmd = record zero_cmd { opcode = 2 } }

-- A callback that puts its context back, takes another and submits it.
abbrev renew : ℕ → Queue (LibaioQueue Ring) ℕ → List (Act ℕ)
renew p q = put_ctx p ∷ get_ctx ∷ prepare p read ∷ submit p pl8 ∷ []

-- Two commands submitted.
abbrev loads : List (Act ℕ)
loads = prepare 0 read ∷ prepare 1 read ∷ submit 0 pl8 ∷ submit 1 pl8 ∷ []

abbrev loaded : Queue (LibaioQueue Ring) ℕ
loaded = run_acts (libaio_async instant 3 9) none_sync loads idle

loaded-IsValid : IsValid avail unset 0 loaded
loaded-IsValid =
    run_acts-IsValid instant avail unset avail instant-IsAio 3 9 none_sync loads idle idle-IsValid

libaio_poke-IsValid_example :
    let (r, q') = libaio_poke instant 3 9 none_sync renew 0 loaded in
    IsValid avail unset 0 q'
    × (((k : ℕ) × (r ≡ value k) × (k ≤ poke_count 0 loaded))
        ⊎ ((e : Errno) × (r ≡ fail e)
            × (true ≡ false)
            × ((instant.getevents 0 (poke_count 0 loaded) loaded.be.aio_ctx loaded.world).0 ≡ inl e)
            × (q'.outstanding ≡ loaded.outstanding)
            × (q'.ctxs ≡ loaded.ctxs)))
libaio_poke-IsValid_example =
    libaio_poke-IsValid instant avail unset avail instant-IsAio 3 9 none_sync renew 0 loaded
      loaded-IsValid
