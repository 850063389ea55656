-- ===== src/Aio/Slots.antt =====
-- The slots of the requests in the lists of the POSIX aio queue.
use xnvme.Common.{
  ℕ, ◌+◌, ◌≡◌, refl, Bool, true, false, ◌==◌, ◌||◌, List, [], ◌∷◌, ◌++◌, some, length, arith,
  if◌then◌else◌, ℕ_discrete, ==_ne, ==_iff,
}
use xnvme.Aio.{Request, PosixAio, tailq_remove, first_done}

-- Whether a request with that slot is in a list.
unfoldable pub has : ℕ → List Request → Bool
has slot [] = false
has slot (r ∷ rs) = r.slot == slot || has slot rs

pub length-tailq_remove :
    (slot : ℕ) (rs : List Request)
    → has slot rs ≡ true
    → length (tailq_remove slot rs) + 1 ≡ length rs
unfolding has tailq_remove
length-tailq_remove slot [] h = absurd (cc h)
length-tailq_remove slot (r ∷ rs) h = ground (arith, length-tailq_remove slot rs)

pub has-append : (slot : ℕ) (rs ss : List Request) → has slot rs ≡ true → has slot (rs ++ ss) ≡ true
unfolding has
has-append slot [] ss h = absurd (cc h)
has-append slot (r ∷ rs) ss h = ground (arith, has-append slot rs ss)

pub first_done-has :
    {W : Type 0} (aio : PosixAio W) (ssw : ℕ) (rs : List Request) (w : W) (r : Request) (err : ℕ)
    → (first_done aio ssw rs w).0 ≡ some (r, err)
    → has r.slot rs ≡ true
unfolding first_done has
first_done-has aio ssw [] w r err h = absurd (cc h)
first_done-has aio ssw (x ∷ xs) w r err h =
    ground (arith, first_done-has aio ssw xs (aio.error x.slot w).1 r err)

-- How often a request with that slot is in a list.
unfoldable pub occurs : ℕ → List Request → ℕ
occurs slot [] = 0
occurs slot (r ∷ rs) = (if r.slot == slot then 1 else 0) + occurs slot rs

pub occurs-append :
    (slot : ℕ) (rs ss : List Request) → occurs slot (rs ++ ss) ≡ occurs slot rs + occurs slot ss
unfolding occurs
occurs-append slot [] ss = omega arith
occurs-append slot (r ∷ rs) ss = omega (arith, occurs-append slot rs ss)

-- One request less.
pub occurs-tailq_remove :
    (s slot : ℕ) (rs : List Request)
    → has slot rs ≡ true
    → (if slot == s then 1 else 0) + occurs s (tailq_remove slot rs) ≡ occurs s rs
unfolding has occurs tailq_remove
occurs-tailq_remove s slot [] h = absurd (cc h)
occurs-tailq_remove s slot (r ∷ rs) h = elim (ℕ_discrete r.slot slot) [
  | yes here ↦ rw (here, (==_iff slot slot).1 refl) refl
  | no there ↦
      let later : has slot rs ≡ true = ground (arith, h, there) in
      let rest = occurs-tailq_remove s slot rs later in rw (==_ne _ _ there) (omega (arith, rest))
]
