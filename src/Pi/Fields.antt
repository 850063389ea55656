-- ===== src/Pi/Fields.antt =====
-- Reading and writing the fields of the protection information of a block.
use xnvme.Common.{ℕ, ◌+◌, ◌*◌, ◌/◌, ◌%◌, ◌^◌, ◌≤◌, ◌<◌, ◌≡◌, ◌∙◌, inl, inr, if◌then◌else◌, arith}
use xnvme.Mem.{Mem}
use xnvme.Mem.Copy.{Apart}
use xnvme.Mem.Endian.{store_be, load_be, store_be-else, load_be-store_be, load_be-store_be-Apart}
use xnvme.Pi.{
  Pif, guard16, guard32, guard64, is16, pi_size, set_guard, get_guard, set_apptag, get_apptag,
  set_reftag, get_reftag,
}

-- Two memories with the same bytes at the `n` addresses from `lo` on.
abbrev pub SameOn : ℕ → ℕ → Mem → Mem → Type 0
SameOn lo n m m' = (a : ℕ) → lo ≤ a → a < lo + n → m a ≡ m' a

module _ (pif v : ℕ) (m : Mem) where
  pub get_guard-set_guard :
      (f : Pif) → get_guard pif f (set_guard pif v f m) ≡ v % (if is16 f then 2 ^ 16 else 2 ^ 64)
  unfolding get_guard set_guard
  get_guard-set_guard guard16 =
      let cut : v % 2 ^ 16 % 2 ^ 16 ≡ v % 2 ^ 16 = omega arith in
      load_be-store_be 2 pif (v % 2 ^ 16) m ∙ cut
  get_guard-set_guard guard32 = load_be-store_be 8 pif v m
  get_guard-set_guard guard64 = load_be-store_be 8 pif v m

  pub get_guard-set_apptag : (f : Pif) → get_guard pif f (set_apptag pif v f m) ≡ get_guard pif f m
  unfolding get_guard set_apptag
  get_guard-set_apptag guard16 = load_be-store_be-Apart 2 2 pif (pif + 2) v m (inl (omega arith))
  get_guard-set_apptag guard32 = load_be-store_be-Apart 8 2 pif (pif + 8) v m (inl (omega arith))
  get_guard-set_apptag guard64 = load_be-store_be-Apart 8 2 pif (pif + 8) v m (inl (omega arith))

  pub get_apptag-set_apptag : (f : Pif) → get_apptag pif f (set_apptag pif v f m) ≡ v % 2 ^ 16
  unfolding get_apptag set_apptag
  get_apptag-set_apptag guard16 = load_be-store_be 2 (pif + 2) v m
  get_apptag-set_apptag guard32 = load_be-store_be 2 (pif + 8) v m
  get_apptag-set_apptag guard64 = load_be-store_be 2 (pif + 8) v m

  -- The two stores of a reference tag of 48 bits, seen from a field before them.
  load_be-long :
      (k a : ℕ) (x y : ℕ)
      → a + k ≤ pif + 10
      → load_be k a (store_be 4 (pif + 12) x (store_be 2 (pif + 10) y m)) ≡ load_be k a m
  load_be-long k a x y h =
      load_be-store_be-Apart k 4 a (pif + 12) x (store_be 2 (pif + 10) y m) (inl (omega arith))
      ∙ load_be-store_be-Apart k 2 a (pif + 10) y m (inl h)

  pub get_guard-set_reftag : (f : Pif) → get_guard pif f (set_reftag pif v f m) ≡ get_guard pif f m
  unfolding get_guard set_reftag
  get_guard-set_reftag guard16 =
      load_be-store_be-Apart 2 4 pif (pif + 4) (v % 2 ^ 32) m (inl (omega arith))
  get_guard-set_reftag guard32 = load_be-long 8 pif _ _ (omega arith)
  get_guard-set_reftag guard64 = load_be-long 8 pif _ _ (omega arith)

  pub get_apptag-set_reftag :
      (f : Pif) → get_apptag pif f (set_reftag pif v f m) ≡ get_apptag pif f m
  unfolding get_apptag set_reftag
  get_apptag-set_reftag guard16 =
      load_be-store_be-Apart 2 4 (pif + 2) (pif + 4) (v % 2 ^ 32) m (inl (omega arith))
  get_apptag-set_reftag guard32 = load_be-long 2 (pif + 8) _ _ (omega arith)
  get_apptag-set_reftag guard64 = load_be-long 2 (pif + 8) _ _ (omega arith)

  -- The two halves of a reference tag of 48 bits.
  long_reftag :
      load_be 2
            (pif + 10)
            (store_be 4 (pif + 12) (v % 2 ^ 32) (store_be 2 (pif + 10) (v / 2 ^ 32 % 2 ^ 16) m))
          * 2 ^ 32
        + load_be 4
            (pif + 12)
            (store_be 4 (pif + 12) (v % 2 ^ 32) (store_be 2 (pif + 10) (v / 2 ^ 32 % 2 ^ 16) m))
      ≡ v % 2 ^ 48
  long_reftag =
      let m1 : Mem = store_be 2 (pif + 10) (v / 2 ^ 32 % 2 ^ 16) m in
      let high : load_be 2 (pif + 10) (store_be 4 (pif + 12) (v % 2 ^ 32) m1)
          ≡ v / 2 ^ 32 % 2 ^ 16 % 2 ^ 16 =
        load_be-store_be-Apart 2 4 (pif + 10) (pif + 12) (v % 2 ^ 32) m1 (inl (omega arith))
        ∙ load_be-store_be 2 (pif + 10) (v / 2 ^ 32 % 2 ^ 16) m in
      let low : load_be 4 (pif + 12) (store_be 4 (pif + 12) (v % 2 ^ 32) m1) ≡ v % 2 ^ 32 % 2 ^ 32 =
        load_be-store_be 4 (pif + 12) (v % 2 ^ 32) m1 in
      rw (high, low) (omega arith)

  pub get_reftag-set_reftag :
      (f : Pif) → get_reftag pif f (set_reftag pif v f m) ≡ v % (if is16 f then 2 ^ 32 else 2 ^ 48)
  unfolding get_reftag set_reftag
  get_reftag-set_reftag guard16 =
      let cut : v % 2 ^ 32 % 2 ^ 32 ≡ v % 2 ^ 32 = omega arith in
      load_be-store_be 4 (pif + 4) (v % 2 ^ 32) m ∙ cut
  get_reftag-set_reftag guard32 = long_reftag
  get_reftag-set_reftag guard64 = long_reftag

module _ (pif a : ℕ) where
  -- An address outside the protection information is outside each field of it.
  part : (lo k size : ℕ) → pif ≤ lo → lo + k ≤ pif + size → Apart a 1 pif size → Apart a 1 lo k
  part lo k size le hi h = elim h [ inl x ↦ inl (omega arith) | inr y ↦ inr (omega arith) ]

-- The setters change the protection information alone.
module _ (pif v a : ℕ) (m : Mem) where
  pub set_guard-else : (f : Pif) → Apart a 1 pif (pi_size f) → set_guard pif v f m a ≡ m a
  unfolding set_guard pi_size
  set_guard-else guard16 h =
      store_be-else 2 pif _ a m (part pif a pif 2 8 (omega arith) (omega arith) h)
  set_guard-else guard32 h =
      store_be-else 8 pif _ a m (part pif a pif 8 16 (omega arith) (omega arith) h)
  set_guard-else guard64 h =
      store_be-else 8 pif _ a m (part pif a pif 8 16 (omega arith) (omega arith) h)

  pub set_apptag-else : (f : Pif) → Apart a 1 pif (pi_size f) → set_apptag pif v f m a ≡ m a
  unfolding set_apptag pi_size
  set_apptag-else guard16 h =
      store_be-else 2 (pif + 2) _ a m (part pif a (pif + 2) 2 8 (omega arith) (omega arith) h)
  set_apptag-else guard32 h =
      store_be-else 2 (pif + 8) _ a m (part pif a (pif + 8) 2 16 (omega arith) (omega arith) h)
  set_apptag-else guard64 h =
      store_be-else 2 (pif + 8) _ a m (part pif a (pif + 8) 2 16 (omega arith) (omega arith) h)

  pub set_reftag-else : (f : Pif) → Apart a 1 pif (pi_size f) → set_reftag pif v f m a ≡ m a
  unfolding set_reftag pi_size
  set_reftag-else guard16 h =
      store_be-else 4 (pif + 4) _ a m (part pif a (pif + 4) 4 8 (omega arith) (omega arith) h)
  set_reftag-else guard32 h =
      store_be-else 4 (pif + 12) _ a _ (part pif a (pif + 12) 4 16 (omega arith) (omega arith) h)
      ∙ store_be-else 2 (pif + 10) _ a m (part pif a (pif + 10) 2 16 (omega arith) (omega arith) h)
  set_reftag-else guard64 h =
      store_be-else 4 (pif + 12) _ a _ (part pif a (pif + 12) 4 16 (omega arith) (omega arith) h)
      ∙ store_be-else 2 (pif + 10) _ a m (part pif a (pif + 10) 2 16 (omega arith) (omega arith) h)
