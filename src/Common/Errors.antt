-- ===== src/Common/Errors.antt =====
-- What a function of the library returns: an `int` that is a value, or minus an `errno`.
use Prim.Native.Nat.{ℕ, zero, suc, ◌-◌, ◌%◌}
use mathlib.Core.Bool.{Bool, true, false}

-- The error numbers that the source names; `errno_of` is one that a callee chose.
pub data Errno : Type 0 where
  einval eio ebusy enomem enosys enotsup enxio : Errno
  errno_of : ℕ → Errno

-- `value n` is the int n, which is not negative; `fail e` is the int -e.
pub data Ret : Type 0 where
  value : ℕ → Ret
  fail : Errno → Ret

-- `if (err)`
abbrev pub is_err : Ret → Bool
is_err (value zero) = false
is_err (value (suc n)) = true
is_err (fail e) = true

-- `if (err < 0)`
abbrev pub is_neg : Ret → Bool
is_neg (value n) = false
is_neg (fail e) = true

-- The numbers of <errno.h> on Linux.
unfoldable pub errno_nr : Errno → ℕ
errno_nr einval = 22
errno_nr eio = 5
errno_nr ebusy = 16
errno_nr enomem = 12
errno_nr enosys = 38
errno_nr enotsup = 95
errno_nr enxio = 6
errno_nr (errno_of n) = n

-- The `int` stored in a status code, a field of 8 bits.
unfoldable pub sc_of : Ret → ℕ
unfolding errno_nr
sc_of (value n) = n % 256
sc_of (fail e) = (256 - errno_nr e % 256) % 256
