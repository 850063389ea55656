-- ===== src/Queue/Pow.antt =====
-- The capacities that xnvme_queue_init() takes: xnvme_is_pow2() below 4096.
use xnvme.Common.{
  ℕ, zero, suc, ◌^◌, ◌<◌, ◌≡◌, ◌≢◌, refl, Bool, true, false, not, ◌&&◌, ◌||◌, ◌==◌, arith, inl, inr,
  Bool-cases, ℕ_discrete, and-true, ==_ne, ltb, ltb→lt,
}
use xnvme.Queue.{is_pow2}

-- Whether a number is 2 to the power of one of the `k` exponents below.
unfoldable is_power : ℕ → ℕ → Bool
is_power zero n = false
is_power (suc k) n = n == 2 ^ k || is_power k n

is_power-none : (j n : ℕ) → ((k : ℕ) → k < j → n ≢ 2 ^ k) → is_power j n ≡ false
unfolding is_power
is_power-none zero n h = refl
is_power-none (suc j) n h =
    rw (==_ne n (2 ^ j) (h j (omega arith))) (is_power-none j n (λ k lt. h k (omega arith)))

-- The numbers below `n` of which is_pow2 says that they are powers are so.
unfoldable agree : ℕ → Bool
unfolding is_power is_pow2
agree zero = true
agree (suc n) = (not (is_pow2 n) || is_power 12 n) && agree n

agree-all : agree 4096 ≡ true
unfolding agree is_power is_pow2
agree-all = refl

agree-at : (m n : ℕ) → agree m ≡ true → n < m → (not (is_pow2 n) || is_power 12 n) ≡ true
unfolding agree
agree-at zero n h lt = absurd (omega arith)
agree-at (suc m) n h lt =
    let (here, below) = and-true (not (is_pow2 m) || is_power 12 m) (agree m) h in
    elim (ℕ_discrete n m) [ yes e ↦ rw e here | no ne ↦ agree-at m n below (omega (arith, ne)) ]

-- The guard of xnvme_queue_init() refuses every other number.
pub guard-none : (n : ℕ) → ((k : ℕ) → k < 12 → n ≢ 2 ^ k) → (is_pow2 n && ltb n 4096) ≡ false
guard-none n h = elim (Bool-cases (is_pow2 n && ltb n 4096)) [
  | inr refused ↦ refused
  | inl taken ↦
      let (pow, small) = and-true (is_pow2 n) (ltb n 4096) taken in
      absurd (cc (agree-at 4096 n agree-all (ltb→lt n 4096 small), pow, is_power-none 12 n h))
]

-- The guard for the powers from 2 ^ (`k` - 1) down.
unfoldable all_pass : ℕ → Bool
unfolding is_pow2
all_pass zero = true
all_pass (suc k) = (is_pow2 (2 ^ k) && ltb (2 ^ k) 4096) && all_pass k

all_pass-twelve : all_pass 12 ≡ true
unfolding all_pass is_pow2
all_pass-twelve = refl

all_pass-at : (j k : ℕ) → all_pass j ≡ true → k < j → (is_pow2 (2 ^ k) && ltb (2 ^ k) 4096) ≡ true
unfolding all_pass
all_pass-at zero k h lt = absurd (omega arith)
all_pass-at (suc j) k h lt =
    let (here, below) = and-true (is_pow2 (2 ^ j) && ltb (2 ^ j) 4096) (all_pass j) h in
    elim (ℕ_discrete k j) [ yes e ↦ rw e here | no ne ↦ all_pass-at j k below (omega (arith, ne)) ]

-- It takes the powers of two below 4096.
pub guard-power : (n k : ℕ) → k < 12 → n ≡ 2 ^ k → (is_pow2 n && ltb n 4096) ≡ true
guard-power n k lt e = rw e (all_pass-at 12 k all_pass-twelve lt)
