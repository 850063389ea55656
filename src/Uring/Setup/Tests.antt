-- ===== src/Uring/Setup/Tests.antt =====
-- A system that opens every ring it is asked for, and counts the rings that are open.
use xnvme.Common.{ℕ, ◌+◌, ◌-◌, refl, false, none, some, [], ◌∷◌, List, value}
use xnvme.Uring.{UringQueue}
use xnvme.Uring.Setup.{UringSys, Settings, attaches}
use xnvme.Uring.Setup.Shared.{
  State, Op, init, term, polled, AllAttach, IsCounted, run_ops, run_ops-IsCounted,
}

abbrev counting : UringSys ℕ ℕ
counting = record {
  queue_init = λ n p r w. (value 0, w, w + 1);
  queue_exit = λ r w. (r, w - 1);
  register_files = λ fd r w. (value 0, r, w);
  unregister_files = λ r w. (r, w);
  eventfd = λ w. (value 5, w);
  register_eventfd = λ fd r w. (value 0, r, w);
  unregister_eventfd = λ r w. (r, w);
  close = λ fd w. w;
  ring_fd = λ r. r;
}

abbrev settings : Settings
settings = record {
  batching_off = false;
  awq = none;
  cpu = some 2;
  poll_sq = false;
  poll_io = false;
  fd = 3;
}

abbrev zeroed : UringQueue ℕ
zeroed = record { ring = 0; poll_sq = false; poll_io = false; batching = false; efd = none }

abbrev start : State ℕ ℕ
start = record {
  wq = record { ring = 0; is_initialized = false; refcount = 0 };
  queues = [];
  world = 0;
}

-- Two polled queues and another one, of which one polled queue is terminated.
abbrev ops : List (Op ℕ)
ops = init 16 2 settings zeroed ∷ init 16 0 settings zeroed ∷ init 8 3 settings zeroed ∷ term 2 ∷ []

ops-AllAttach : AllAttach ops
unfolding attaches
ops-AllAttach = (refl, (refl, (refl, (tt, tt))))

start-IsCounted : IsCounted (polled start.queues) start.wq
unfolding polled
start-IsCounted = record { refs = refl; open_ = refl }

run_ops-IsCounted_example :
    IsCounted (polled (run_ops counting ops start).queues) (run_ops counting ops start).wq
run_ops-IsCounted_example = run_ops-IsCounted counting ops start ops-AllAttach start-IsCounted
