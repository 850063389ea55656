-- ===== src/Emu/Init.antt =====
-- The initial state of the emulated queue.
use xnvme.Common.{
  ℕ, zero, suc, ◌+◌, ◌<◌, ◌≡◌, refl, ◌&&◌, true, List, [], ◌∷◌, some, length, arith, ltb, ltb→lt,
  and-true, value,
}
use xnvme.Queue.{Queue, is_pow2, queue_init}
use xnvme.Queue.Pool.{queue_init-guarded}
use xnvme.Emu.{Entry, Qpair, fill_rp, blank_entry, emu_init}
use xnvme.Emu.Inv.{IsValid}

length-fill_rp : (n i : ℕ) (rp : List Entry) → length (fill_rp n i rp) ≡ n + length rp
unfolding fill_rp
length-fill_rp zero i rp = omega arith
length-fill_rp (suc n) i rp = omega (arith, length-fill_rp n (i + 1) (blank_entry i ∷ rp))

module _ {W : Type 0} where
  pub emu_init-IsValid :
      (q : Queue Qpair W) → q.outstanding ≡ 0 → q.capacity < 4096 → IsValid (emu_init true q).1
  unfolding emu_init
  emu_init-IsValid q idle small = record {
    entries = omega (arith, length-fill_rp q.capacity 0 []);
    counted = idle;
    ordered = omega arith;
    bounded = omega arith;
    small = small;
    floor = omega arith;
  }

  -- xnvme_queue_init() of a capacity it accepts, with memory for the queue and for the backend,
  -- gives a queue of this capacity that satisfies the invariant and has nothing submitted.
  pub queue_init-emu :
      (capacity : ℕ) (blank : Queue Qpair W)
      → blank.pool ≡ []
      → blank.outstanding ≡ 0
      → (is_pow2 capacity && ltb capacity 4096) ≡ true
      → (q : Queue Qpair W) × (queue_init capacity (some blank) (emu_init true) ≡ (value 0, some q))
        × (q.capacity ≡ capacity)
        × (q.be.sq ≡ [])
        × IsValid q
  unfolding emu_init
  queue_init-emu capacity blank empty idle taken =
      let (refuses, accepts) = queue_init-guarded capacity blank (emu_init true) empty idle in
      let (q, ran, size, out, b, c, d) = accepts taken in
      let (pow, lt) = and-true (is_pow2 capacity) (ltb capacity 4096) taken in
      let small : q.capacity < 4096 = rw size (ltb→lt capacity 4096 lt) in
      ((emu_init true q).1, ran, size, refl, emu_init-IsValid q out small)
