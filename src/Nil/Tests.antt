-- ===== src/Nil/Tests.antt =====
-- The nil queue on concrete states: a queue of four with two contexts submitted.
use xnvme.Common.{
  ℕ, zero, suc, ◌-◌, ◌<◌, ◌≡◌, refl, [], Option, none, some, arith, value, fail, eio,
}
use xnvme.Cmd.{Payload}
use xnvme.Queue.{Queue, fresh_ctx}
use xnvme.Queue.Pass.{SyncOps}
use xnvme.Nil.{Slots, nil_poke}
use xnvme.Nil.Reap.{IsValid, noop, poke_count, nil_poke-value}
use xnvme.Nil.Resubmit.{resubmit, nil_poke-resubmit}

abbrev still : SyncOps ℕ
still = record { cmd_io = λ c pl w. (value 0, c, w); cmd_iov = λ c pl w. (value 0, c, w) }

abbrev pl4 : Payload
pl4 = record { buf = 64; nbytes = 4; vec_cnt = 0; meta = 0; meta_nbytes = 0 }

-- Slot 0 holds context 7, and slot 1 context 8.
abbrev slots : ℕ → Option ℕ
slots zero = some 7
slots (suc zero) = some 8
slots (suc (suc i)) = none

abbrev pending : Queue Slots ℕ
pending = record {
  capacity = 4;
  outstanding = 2;
  pool = [];
  ctxs = fresh_ctx;
  be = record { ctx = slots };
  world = 0;
}

slots-held : (i : ℕ) → i < 2 → (p : ℕ) × (slots i ≡ some p)
slots-held zero h = (7, refl)
slots-held (suc zero) h = (8, refl)
slots-held (suc (suc i)) h = absurd (omega arith)

pending-IsValid : IsValid pending
pending-IsValid = record { held = slots-held; bounded = omega arith; fits = omega arith }

nil_poke-value_example :
    (q' : Queue Slots ℕ) × (nil_poke still noop 1 pending ≡ (value (poke_count 1 pending), q'))
    × (q'.outstanding ≡ pending.outstanding - poke_count 1 pending)
    × IsValid q'
    × ((i : ℕ) → i < q'.outstanding → q'.be.ctx i ≡ pending.be.ctx i)
nil_poke-value_example = nil_poke-value still 1 pending pending-IsValid

nil_poke-resubmit_example :
    (q' : Queue Slots ℕ) × (nil_poke still (resubmit pl4) 0 pending ≡ (fail eio, q'))
    × (q'.outstanding ≡ 1)
    × (q'.be.ctx 2 ≡ some 8)
nil_poke-resubmit_example =
    nil_poke-resubmit still pl4 0 8 pending pending-IsValid refl (omega arith) refl refl
