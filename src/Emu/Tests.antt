-- ===== src/Emu/Tests.antt =====
-- The emulated queue on concrete commands: a queue of two, and a device that counts bytes.
use xnvme.Common.{
  ℕ, ◌+◌, ◌-◌, ◌≤◌, ◌≡◌, refl, true, List, [], ◌∷◌, some, length, take, drop, arith, value,
}
use xnvme.Cmd.{Payload}
use xnvme.Queue.{Queue, fresh_ctx}
use xnvme.Queue.Pass.{SyncOps, Act, get_ctx, put_ctx, submit, run_acts, run_act, cmd_pass}
use xnvme.Queue.Drain.{drain}
use xnvme.Emu.{Qpair, emu_init, emu_poke, emu_cmd_io, emu_async, qpair_alloc}
use xnvme.Emu.Inv.{IsValid, poke_count, emu_poke-IsValid, run_acts-IsHeld}
use xnvme.Emu.Init.{emu_init-IsValid}
use xnvme.Emu.Fifo.{noop, after, Cmds, submit_all, run_cmds, emu_poke-fifo, drain-sequential}

abbrev counting : SyncOps ℕ
counting = record {
  cmd_io = λ c pl w. (value 0, c, w + pl.nbytes);
  cmd_iov = λ c pl w. (value 0, c, w + pl.vec_cnt);
}

abbrev pl8 : Payload
pl8 = record { buf = 64; nbytes = 8; vec_cnt = 0; meta = 0; meta_nbytes = 0 }

abbrev blank : Queue Qpair ℕ
blank = record {
  capacity = 0;
  outstanding = 0;
  pool = [];
  ctxs = fresh_ctx;
  be = record { rp = []; sq = []; capacity = 0 };
  world = 100;
}

abbrev two : Queue Qpair ℕ
two = (emu_init true (record blank { capacity = 2 })).1

abbrev two_cmds : Cmds
two_cmds = (0, pl8) ∷ (1, record pl8 { nbytes = 16 }) ∷ []

-- A callback that puts its context back, takes another and submits it.
abbrev renew : ℕ → Queue Qpair ℕ → List (Act ℕ)
renew p q = put_ctx p ∷ get_ctx ∷ submit p pl8 ∷ []

two-IsValid : IsValid two
two-IsValid = emu_init-IsValid (record blank { capacity = 2 }) refl (omega arith)

-- Two commands submitted.
abbrev loaded : Queue Qpair ℕ
loaded = run_acts emu_async counting (submit 0 pl8 ∷ submit 1 pl8 ∷ []) two

loaded-IsValid : IsValid loaded
loaded-IsValid = run_acts-IsHeld counting (submit 0 pl8 ∷ submit 1 pl8 ∷ []) two two-IsValid

loaded-outstanding : loaded.outstanding ≡ 2
unfolding run_acts run_act emu_init qpair_alloc cmd_pass emu_cmd_io
loaded-outstanding = refl

emu_poke-IsValid_example :
    (q' : Queue Qpair ℕ) × (emu_poke counting renew 0 loaded
      ≡ some (value (poke_count 0 loaded), q'))
    × IsValid q'
emu_poke-IsValid_example = emu_poke-IsValid counting renew 0 loaded loaded-IsValid

emu_poke-fifo_example :
    emu_poke counting noop 1 loaded
    ≡ some (
      value (poke_count 1 loaded),
      record (after counting
          (take (poke_count 1 loaded) loaded.be.sq)
          (drop (poke_count 1 loaded) loaded.be.sq)
          loaded) { outstanding = loaded.outstanding - poke_count 1 loaded },
    )
emu_poke-fifo_example = emu_poke-fifo counting 1 loaded loaded-IsValid

two-idle : two.be.sq ≡ []
unfolding emu_init qpair_alloc
two-idle = refl

two-room : length two_cmds ≤ two.capacity
unfolding emu_init
two-room = omega arith

drain-sequential_example :
    (q' : Queue Qpair ℕ) × (drain (emu_poke counting noop) 2 (submit_all two_cmds two)
      ≡ some (value (length two_cmds), q'))
    × ((q'.ctxs, q'.world) ≡ run_cmds counting two_cmds (two.ctxs, two.world))
    × (q'.outstanding ≡ 0)
    × (q'.be.sq ≡ [])
drain-sequential_example =
    drain-sequential counting 0 two_cmds two two-IsValid two-idle two-room
      (omega arith, omega arith, (omega arith, omega arith, tt))
