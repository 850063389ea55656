-- ===== src/Mem/Copy.antt =====
-- Regions of memory under memcpy(), memset() and memcmp().
use xnvme.Common.{
  ℕ, zero, suc, ◌+◌, ◌-◌, ◌≤◌, ◌<◌, ◌≡◌, refl, ap, ◌⊎◌, inl, inr, ◌↔◌, true, false, ◌++◌, length,
  ◌==◌, ==_iff, ==_refl, and-true, arith,
}
use mathlib.Core.List.{head-eq_of_cons-eq, tail-eq_of_cons-eq}
use xnvme.Mem.{Mem, within, memcpy, memset, bytes, same_bytes}

-- Two regions have no address in common.
abbrev pub Apart : ℕ → ℕ → ℕ → ℕ → Type 0
Apart a n b k = (a + n ≤ b) ⊎ (b + k ≤ a)

module _ (dst n : ℕ) where
  within-true : (a : ℕ) → dst ≤ a → a < dst + n → within dst n a ≡ true
  within-true a h k = ground arith

  within-false : (a : ℕ) → (a < dst) ⊎ (dst + n ≤ a) → within dst n a ≡ false
  within-false a h = ground arith

pub memcpy-at : (dst src n i : ℕ) (m : Mem) → i < n → memcpy dst src n m (dst + i) ≡ m (src + i)
unfolding memcpy
memcpy-at dst src n i m h =
    let same : dst + i - dst ≡ i = omega arith in
    rw (within-true dst n (dst + i) (omega arith) (omega arith), same)

pub memcpy-else :
    (dst src n a : ℕ) (m : Mem) → (a < dst) ⊎ (dst + n ≤ a) → memcpy dst src n m a ≡ m a
unfolding memcpy
memcpy-else dst src n a m h = rw (within-false dst n a h)

pub memset-at : (dst v n i : ℕ) (m : Mem) → i < n → memset dst v n m (dst + i) ≡ v
unfolding memset
memset-at dst v n i m h = rw (within-true dst n (dst + i) (omega arith) (omega arith))

pub memset-else : (dst v n a : ℕ) (m : Mem) → (a < dst) ⊎ (dst + n ≤ a) → memset dst v n m a ≡ m a
unfolding memset
memset-else dst v n a m h = rw (within-false dst n a h)

module _ (m m' : Mem) (a b n : ℕ) (h : (i : ℕ) → i < suc n → m (a + i) ≡ m' (b + i)) where
  bytes-eq_head : m a ≡ m' b
  bytes-eq_head =
      let at : m (a + 0) ≡ m' (b + 0) = h 0 (omega arith) in
      let x : a + 0 ≡ a = omega arith in let y : b + 0 ≡ b = omega arith in cc (at, ap m x, ap m' y)

  bytes-eq_tail : (i : ℕ) → i < n → m (a + 1 + i) ≡ m' (b + 1 + i)
  bytes-eq_tail i lt =
      let at : m (a + suc i) ≡ m' (b + suc i) = h (suc i) (omega arith) in
      let x : a + suc i ≡ a + 1 + i = omega arith in
      let y : b + suc i ≡ b + 1 + i = omega arith in cc (at, ap m x, ap m' y)

-- Two memories that agree on two regions, address by address, have the same bytes there.
pub bytes-eq :
    (m m' : Mem) (a b n : ℕ)
    → ((i : ℕ) → i < n → m (a + i) ≡ m' (b + i))
    → bytes m a n ≡ bytes m' b n
unfolding bytes
bytes-eq m m' a b zero h = refl
bytes-eq m m' a b (suc n) h =
    let here : m a ≡ m' b = bytes-eq_head m m' a b n h in
    rw (here, bytes-eq m m' (a + 1) (b + 1) n (bytes-eq_tail m m' a b n h))

-- memcmp() finds two regions equal just if they hold the same bytes.
pub same_bytes_iff :
    (m : Mem) (a b n : ℕ) → (same_bytes m a b n ≡ true) ↔ (bytes m a n ≡ bytes m b n)
unfolding same_bytes bytes
same_bytes_iff m a b zero = ground arith
same_bytes_iff m a b (suc n) =
    let (to, from) = same_bytes_iff m (a + 1) (b + 1) n in
    (
      λ h. let (x, y) = and-true (m a == m b) _ h in cc (to y, (==_iff (m a) (m b)).0 x),
      λ h.
          let here : m a ≡ m b = head-eq_of_cons-eq h in
          rw (here, from (tail-eq_of_cons-eq h), ==_refl (m b)),
    )

pub length-bytes : (m : Mem) (a n : ℕ) → length (bytes m a n) ≡ n
unfolding bytes
length-bytes m a zero = refl
length-bytes m a (suc n) = ap suc (length-bytes m (a + 1) n)

pub bytes-append : (m : Mem) (a n k : ℕ) → bytes m a (n + k) ≡ bytes m a n ++ bytes m (a + n) k
unfolding bytes
bytes-append m a zero k =
    let at : a + 0 ≡ a = omega arith in let size : 0 + k ≡ k = omega arith in rw (at, size)
bytes-append m a (suc n) k =
    let size : suc n + k ≡ suc (n + k) = omega arith in
    let at : a + 1 + n ≡ a + suc n = omega arith in rw (size, ← at, bytes-append m (a + 1) n k)

-- The region that memcpy() writes holds the bytes of the other.
pub bytes-memcpy : (dst src n : ℕ) (m : Mem) → bytes (memcpy dst src n m) dst n ≡ bytes m src n
bytes-memcpy dst src n m =
    bytes-eq (memcpy dst src n m) m dst src n (λ i lt. memcpy-at dst src n i m lt)

-- Regions apart from the one written keep their bytes.
pub bytes-memcpy-Apart :
    (dst src n a k : ℕ) (m : Mem) → Apart a k dst n → bytes (memcpy dst src n m) a k ≡ bytes m a k
bytes-memcpy-Apart dst src n a k m h = bytes-eq (memcpy dst src n m) m a a k (λ i lt.
    memcpy-else dst src n (a + i) m
      (elim h [ inl x ↦ inl (omega arith) | inr y ↦ inr (omega arith) ]))
