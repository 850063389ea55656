-- ===== src/Common/Words.antt =====
-- Machine words as native numbers: wrap-around, and fields of bits written and read.
use Prim.Native.Nat.{ℕ, ◌+◌, ◌-◌, ◌*◌, ◌/◌, ◌%◌, ◌^◌}

-- uint32_t
abbrev pub add32 : ℕ → ℕ → ℕ
add32 a b = (a + b) % 2 ^ 32

abbrev pub sub32 : ℕ → ℕ → ℕ
sub32 a b = (a + 2 ^ 32 - b) % 2 ^ 32

abbrev pub mul32 : ℕ → ℕ → ℕ
mul32 a b = (a * b) % 2 ^ 32

-- uint64_t and size_t
abbrev pub add64 : ℕ → ℕ → ℕ
add64 a b = (a + b) % 2 ^ 64

abbrev pub sub64 : ℕ → ℕ → ℕ
sub64 a b = (a + 2 ^ 64 - b) % 2 ^ 64

abbrev pub mul64 : ℕ → ℕ → ℕ
mul64 a b = (a * b) % 2 ^ 64

abbrev pub shl64 : ℕ → ℕ → ℕ
shl64 a k = (a * 2 ^ k) % 2 ^ 64

-- The `width` bits of `w` from bit `off` on, and `w` with `v` written there.
abbrev pub get_bits : ℕ → ℕ → ℕ → ℕ
get_bits w off width = w / 2 ^ off % 2 ^ width

abbrev pub put_bits : ℕ → ℕ → ℕ → ℕ → ℕ
put_bits w off width v =
    w % 2 ^ off + (v % 2 ^ width) * 2 ^ off + (w / 2 ^ (off + width)) * 2 ^ (off + width)
