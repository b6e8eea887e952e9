-- ===== src/Expr/Operators/Integers.antt =====
-- Shifts and divisions of an `int64_t`, as C and the processor do them.
use bitpunch.Base.{ℕ, ◌+◌, ◌-◌, ◌/◌, ◌%◌, ◌^◌, ltb, ◌==◌, Bool, ◌&&◌, ◌||◌, if◌then◌else◌}
use bitpunch.Base.Int.{ℤ, pos, negsuc, pos_part, neg_part, sub_ℕ, eqb_ℤ}
use bitpunch.Base.Words.{to_u64, to_i64}
use bitpunch.Base.Machine.{Machine, shl64}

-- `a << b`; a negative count is out of range, as a count above 63 is.
unfoldable pub shift_left : Machine → ℤ → ℤ → ℤ
unfolding shl64 to_u64 to_i64
shift_left m a b = to_i64 (shl64 m (to_u64 a) (to_u64 b))

-- An arithmetic shift to the right.
unfoldable pub shift_down : ℤ → ℕ → ℤ
shift_down (pos n) k = pos (n / 2 ^ k)
shift_down (negsuc n) k = negsuc (n / 2 ^ k)

-- `a >> b`
unfoldable pub shift_right : Machine → ℤ → ℤ → ℤ
unfolding shift_down to_u64 to_i64
shift_right m a b =
    if ltb (to_u64 b) 64 then shift_down a (to_u64 b) else to_i64 (m.wide_shr (to_u64 a) (to_u64 b))

-- A division by 0, and the one whose quotient is 2 ^ 63.
unfoldable pub div_traps : ℤ → ℤ → Bool
div_traps a b = eqb_ℤ b (pos 0) || (eqb_ℤ a (negsuc (2 ^ 63 - 1)) && eqb_ℤ b (negsuc 0))

abbrev magnitude : ℤ → ℕ
magnitude z = pos_part z + neg_part z

-- `a / b` and `a % b`, which round to 0.
unfoldable pub div_i64 : ℤ → ℤ → ℤ
div_i64 a b =
    let q = magnitude a / magnitude b in
    if (neg_part a == 0) && (neg_part b == 0) || not_negative a b then pos q else sub_ℕ 0 q
  where
    not_negative : ℤ → ℤ → Bool
    not_negative a b = ltb 0 (neg_part a) && ltb 0 (neg_part b)

unfoldable pub mod_i64 : ℤ → ℤ → ℤ
mod_i64 a b = let r = magnitude a % magnitude b in if neg_part a == 0 then pos r else sub_ℕ 0 r
