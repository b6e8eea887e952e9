-- ===== src/Base/Words.antt =====
-- 64-bit words: `uint64_t` as a number below 2 ^ 64, `int64_t` as the integer that it stands for.
use Prim.Native.Nat.{ℕ, ◌-◌, ◌%◌, ◌^◌, ◌≤◌, ◌<◌}
use mathlib.Core.Path.{◌≡◌}
use native.Mathlib.Omega.{arith}
use bitpunch.Base.Tests.{ltb, if◌then◌else◌}
use bitpunch.Base.Int.{ℤ, pos, negsuc, pos_part, neg_part}

abbrev pub IsByte : ℕ → Type 0
IsByte b = b < 256

abbrev pub IsU64 : ℕ → Type 0
IsU64 w = w < 2 ^ 64

-- The values of an `int64_t`.
abbrev pub IsI64 : ℤ → Type 0
IsI64 z = (pos_part z < 2 ^ 63) × (neg_part z ≤ 2 ^ 63)

-- `(uint64_t)z`, and the bit pattern of an `int64_t`.
unfoldable pub to_u64 : ℤ → ℕ
to_u64 (pos n) = n % 2 ^ 64
to_u64 (negsuc n) = 2 ^ 64 - 1 - n % 2 ^ 64

-- `(int64_t)w` for a `uint64_t`.
unfoldable pub to_i64 : ℕ → ℤ
to_i64 w = if ltb w (2 ^ 63) then pos w else negsuc (2 ^ 64 - 1 - w)

-- The two's-complement result of 64-bit arithmetic whose exact result is `z`.
unfoldable pub wrap64 : ℤ → ℤ
unfolding to_u64 to_i64
wrap64 z = to_i64 (to_u64 z)

pub to_u64-lt : (z : ℤ) → IsU64 (to_u64 z)
unfolding to_u64
to_u64-lt (pos n) = omega arith
to_u64-lt (negsuc n) = omega arith

pub to_i64-IsI64 : (w : ℕ) → IsU64 w → IsI64 (to_i64 w)
unfolding to_i64
to_i64-IsI64 w h = ground arith

pub to_u64-to_i64 : (w : ℕ) → IsU64 w → to_u64 (to_i64 w) ≡ w
unfolding to_u64 to_i64
to_u64-to_i64 w h = ground arith

pub to_i64-to_u64 : (z : ℤ) → IsI64 z → to_i64 (to_u64 z) ≡ z
unfolding to_u64 to_i64
to_i64-to_u64 (pos n) h = ground arith
to_i64-to_u64 (negsuc n) h = ground arith

pub wrap64_fits : (z : ℤ) → IsI64 z → wrap64 z ≡ z
unfolding wrap64
wrap64_fits z h = to_i64-to_u64 z h

pub wrap64-IsI64 : (z : ℤ) → IsI64 (wrap64 z)
unfolding wrap64
wrap64-IsI64 z = to_i64-IsI64 (to_u64 z) (to_u64-lt z)
