-- ===== src/Aio/Tests.antt =====
-- A queue of two requests on a device that finishes each of them at once.
use xnvme.Common.{
  zero, suc, ℕ, ◌+◌, ◌<◌, ◌≡◌, refl, ◌⊎◌, List, [], ◌∷◌, true, false, some, arith, value,
}
use xnvme.Cmd.{Ctx, Payload}
use xnvme.Queue.{Queue, fresh_ctx, zero_cmd}
use xnvme.Queue.Pass.{SyncOps, Act, get_ctx, put_ctx, prepare, submit, run_acts, run_act, cmd_pass}
use xnvme.Aio.{
  PosixQueue, PosixAio, posix_init, fill_ready, posix_async, posix_cmd_io, start_request,
  aio_switch, posix_poke,
}
use xnvme.Aio.Slots.{occurs}
use xnvme.Aio.Held.{IsValid}
use xnvme.Aio.Inv.{AllInProgress, poke_count, posix_poke-IsValid}

abbrev instant : PosixAio ℕ
instant = record {
  read = λ slot buf n off w. (0, w + n);
  write = λ slot buf n off w. (0, w + n);
  error = λ slot w. (0, w);
  return_ = λ slot w. (some 8, 0, w);
}

abbrev blank : Queue PosixQueue ℕ
blank = record {
  capacity = 2;
  outstanding = 0;
  pool = 0 ∷ 1 ∷ [];
  ctxs = fresh_ctx;
  be = record { reqs_ready = []; reqs_outstanding = []; null_followed = false };
  world = 100;
}

abbrev idle : Queue PosixQueue ℕ
idle = (posix_init true blank).1

abbrev pl8 : Payload
pl8 = record { buf = 64; nbytes = 8; vec_cnt = 0; meta = 0; meta_nbytes = 0 }

abbrev none_sync : SyncOps ℕ
none_sync = record { cmd_io = λ c pl w. (value 0, c, w); cmd_iov = λ c pl w. (value 0, c, w) }

abbrev read : Ctx
read = record (fresh_ctx 0) { cmd = record zero_cmd { opcode = 2 } }

-- A callback that puts its context back, takes another and submits it.
abbrev renew : ℕ → Queue PosixQueue ℕ → List (Act ℕ)
renew p q = put_ctx p ∷ get_ctx ∷ prepare p read ∷ submit p pl8 ∷ []

idle-once :
    (slot : ℕ)
    → slot < 2
    → occurs slot idle.be.reqs_ready + occurs slot idle.be.reqs_outstanding ≡ 1
unfolding posix_init fill_ready occurs
idle-once zero lt = refl
idle-once (suc zero) lt = refl
idle-once (suc (suc slot)) lt = absurd (omega arith)

idle-IsValid : IsValid idle
unfolding posix_init fill_ready
idle-IsValid = record {
  entries = refl;
  counted = refl;
  once = idle-once;
  small = omega arith;
  safe = refl;
}

-- Two commands submitted.
abbrev loads : List (Act ℕ)
loads = prepare 0 read ∷ prepare 1 read ∷ submit 0 pl8 ∷ submit 1 pl8 ∷ []

abbrev loaded : Queue PosixQueue ℕ
loaded = run_acts (posix_async instant 9) none_sync loads idle

loaded-once :
    (slot : ℕ)
    → slot < 2
    → occurs slot loaded.be.reqs_ready + occurs slot loaded.be.reqs_outstanding ≡ 1
unfolding run_acts run_act posix_init fill_ready cmd_pass posix_cmd_io start_request aio_switch
    occurs
loaded-once zero lt = refl
loaded-once (suc zero) lt = refl
loaded-once (suc (suc slot)) lt = absurd (omega arith)

loaded-IsValid : IsValid loaded
unfolding run_acts run_act posix_init fill_ready cmd_pass posix_cmd_io start_request aio_switch
loaded-IsValid = record {
  entries = refl;
  counted = refl;
  once = loaded-once;
  small = omega arith;
  safe = refl;
}

posix_poke-IsValid_example :
    let (r, q') = posix_poke instant 9 none_sync renew 0 loaded in
    IsValid q'
    × ((r ≡ value (poke_count 0 loaded))
        ⊎ ((k : ℕ) × (r ≡ value k) × (k < poke_count 0 loaded) × AllInProgress instant 9 q'))
posix_poke-IsValid_example = posix_poke-IsValid instant 9 none_sync renew 0 loaded loaded-IsValid
