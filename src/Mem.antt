-- ===== src/Mem.antt =====
-- Byte-addressed memory with the C library's memcpy(), memset() and memcmp(), where the two
-- regions of memcpy() do not overlap, as it demands.
pub mod Copy
pub mod Gather
pub mod Endian
use xnvme.Common.{
  ℕ, zero, suc, ◌+◌, ◌-◌, Bool, true, false, ◌&&◌, List, [], ◌∷◌, leb, ltb, ◌==◌, if◌then◌else◌,
}

abbrev pub Mem : Type 0
Mem = ℕ → ℕ

-- Whether `a` is one of the `n` addresses from `dst` on.
abbrev pub within : ℕ → ℕ → ℕ → Bool
within dst n a = leb dst a && ltb a (dst + n)

unfoldable pub memcpy : ℕ → ℕ → ℕ → Mem → Mem
memcpy dst src n m a = if within dst n a then m (src + (a - dst)) else m a

unfoldable pub memset : ℕ → ℕ → ℕ → Mem → Mem
memset dst v n m a = if within dst n a then v else m a

-- The `n` bytes from `a` on.
unfoldable pub bytes : Mem → ℕ → ℕ → List ℕ
bytes m a zero = []
bytes m a (suc n) = m a ∷ bytes m (a + 1) n

-- Whether memcmp() returns 0.
unfoldable pub same_bytes : Mem → ℕ → ℕ → ℕ → Bool
same_bytes m a b zero = true
same_bytes m a b (suc n) = m a == m b && same_bytes m (a + 1) (b + 1) n
