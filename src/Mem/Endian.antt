-- ===== src/Mem/Endian.antt =====
-- include/xnvme_endian.h: numbers of `k` bytes stored with the most significant byte first.
use xnvme.Common.{
  ℕ, zero, suc, ◌+◌, ◌*◌, ◌/◌, ◌%◌, ◌^◌, ◌≤◌, ◌<◌, ◌≡◌, refl, ap, ◌∙◌, inl, inr, arith, ◌==◌, ==_ne,
  ==_refl, false,
}
use native.Mathlib.Nat.{
  one-le-pow, pow-suc, mod-lt, mod-eq_of_lt, div-add-mod', mul-le-mul_right, mul-add-mod_self_right,
}
use xnvme.Cmd.{update}
use xnvme.Mem.{Mem}
use xnvme.Mem.Copy.{Apart}

-- xnvme_to_be16(), xnvme_to_be32() and xnvme_to_be64() are this for 2, 4 and 8 bytes.
unfoldable pub store_be : ℕ → ℕ → ℕ → Mem → Mem
store_be zero a v m = m
store_be (suc k) a v m = store_be k (a + 1) v (update m a (v / 256 ^ k % 256))

-- xnvme_from_be16(), xnvme_from_be32() and xnvme_from_be64(): each byte is a uint8_t.
unfoldable pub load_be : ℕ → ℕ → Mem → ℕ
load_be zero a m = 0
load_be (suc k) a m = (m a % 256) * 256 ^ k + load_be k (a + 1) m

-- Addresses outside the number keep their bytes.
pub store_be-else : (k a v b : ℕ) (m : Mem) → Apart b 1 a k → store_be k a v m b ≡ m b
unfolding store_be
store_be-else zero a v b m h = refl
store_be-else (suc k) a v b m h =
    let other : (b == a) ≡ false =
      ==_ne b a
        (elim h [ inl x ↦ λ e. absurd (omega arith) | inr y ↦ λ e. absurd (omega arith) ]) in
    store_be-else k (a + 1) v b (update m a (v / 256 ^ k % 256))
      (elim h [ inl x ↦ inl (omega arith) | inr y ↦ inr (omega arith) ])
    ∙ rw other

-- A number read back from the bytes of two memories that agree on them.
pub load_be-eq :
    (k a : ℕ) (m m' : Mem)
    → ((b : ℕ) → a ≤ b → b < a + k → m b ≡ m' b)
    → load_be k a m ≡ load_be k a m'
unfolding load_be
load_be-eq zero a m m' h = refl
load_be-eq (suc k) a m m' h = rw (
  h a (omega arith) (omega arith),
  load_be-eq k (a + 1) m m' (λ b lo hi. h b (omega arith) (omega arith)),
)

-- Elsewhere numbers read the same after a store.
pub load_be-store_be-Apart :
    (k j a b v : ℕ) (m : Mem) → Apart a k b j → load_be k a (store_be j b v m) ≡ load_be k a m
load_be-store_be-Apart k j a b v m h = load_be-eq k a (store_be j b v m) m (λ x lo hi.
    store_be-else j b v x m (elim h [ inl y ↦ inl (omega arith) | inr y ↦ inr (omega arith) ]))

-- The digit of base 256 above the low part of a number.
digit : (v b : ℕ) → 0 < b → v / b % 256 * b + v % b ≡ v % (b * 256)
digit v b pos =
    let q : ℕ = v / b in
    let s : ℕ = q % 256 in
    let t : ℕ = q / 256 in
    let r : ℕ = v % b in
    let whole : q * b + r ≡ v = div-add-mod' v b in
    let parts : q ≡ t * 256 + s = omega arith in
    let low : r < b = mod-lt v pos in
    let top : s * b ≤ 255 * b = mul-le-mul_right b (omega arith) in
    let spread : q * b ≡ (t * 256 + s) * b = ap (λ x. x * b) parts in
    let sum : v ≡ t * (b * 256) + (s * b + r) = omega (arith, whole, spread) in
    let cut : (t * (b * 256) + (s * b + r)) % (b * 256) ≡ (s * b + r) % (b * 256) =
      mul-add-mod_self_right t (b * 256) (s * b + r) in
    let fits : (s * b + r) % (b * 256) ≡ s * b + r = mod-eq_of_lt (omega (arith, top, low)) in
    cc (ap (λ x. x % (b * 256)) sum, cut, fits)

-- What is loaded is what was stored, cut to the bytes of the field.
pub load_be-store_be : (k a v : ℕ) (m : Mem) → load_be k a (store_be k a v m) ≡ v % 256 ^ k
unfolding load_be store_be
load_be-store_be zero a v m = omega arith
load_be-store_be (suc k) a v m =
    let top : ℕ = v / 256 ^ k % 256 in
    let head : store_be k (a + 1) v (update m a top) a ≡ top =
      store_be-else k (a + 1) v a (update m a top) (inl (omega arith)) ∙ rw (==_refl a) in
    let small : top % 256 ≡ top = omega arith in
    rw (pow-suc 256 k, head, small, load_be-store_be k (a + 1) v (update m a top))
      (digit v (256 ^ k) (one-le-pow k 256 (omega arith)))
