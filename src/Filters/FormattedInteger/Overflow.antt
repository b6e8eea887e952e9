-- ===== src/Filters/FormattedInteger/Overflow.antt =====
-- Numbers that do not fit an `int64_t`, which the test behind each digit does not always notice.
use bitpunch.Base.{ℕ, ◌+◌, ◌-◌, ◌*◌, ◌^◌, ◌≤◌, ◌<◌, ◌≡◌, refl, ◌∙◌, arith, List, [], ◌∷◌, ◌++◌, All}
use bitpunch.Base.Int.{ℤ, pos, ◌+ℤ◌, ◌*ℤ◌}
use bitpunch.Base.Words.{wrap64, to_u64, to_i64}
use bitpunch.Status.{ok, ◌>>=◌}
use bitpunch.Filters.FormattedInteger.{lookup, next_value, parse_digits}
use bitpunch.Filters.FormattedInteger.Digits.{
  digit_value, IsDigit, digits_value, parse_digits-digit, parse_digits-value,
}

parse_digits-append :
    (base z : ℤ) (s t : List ℕ)
    → parse_digits base z (s ++ t) ≡ (parse_digits base z s >>= λ w. parse_digits base w t)
unfolding parse_digits
parse_digits-append base z [] t = refl
parse_digits-append base z (c ∷ s) t =
    ground (arith, parse_digits-append base (next_value base z (lookup c)) s t)

wrapped_value :
    (base n v : ℕ)
    → n < 2 ^ 63
    → base ≤ 16
    → v < base
    → 2 ^ 64 ≤ n * base + v
    → n * base + v < 2 ^ 64 + 2 ^ 63
    → next_value (pos base) (pos n) (pos v) ≡ pos (n * base + v - 2 ^ 64)
unfolding ◌+ℤ◌ ◌*ℤ◌ wrap64 to_u64 to_i64
wrapped_value base n v h small digit low high = ground arith

-- Behind digits that stand for a number n below 2 ^ 63, a digit d is accepted although
-- n * base + d is 2 ^ 64 or more, when that less 2 ^ 64 is at least n and below 2 ^ 63: this
-- difference is what the text is read as.
pub parse_digits_overflow :
    (base : ℕ) (s : List ℕ) (d : ℕ)
    → 1 ≤ base
    → base ≤ 16
    → All (IsDigit base) s
    → IsDigit base d
    → digits_value base 0 s < 2 ^ 63
    → 2 ^ 64 + digits_value base 0 s ≤ digits_value base 0 s * base + digit_value d
    → digits_value base 0 s * base + digit_value d < 2 ^ 64 + 2 ^ 63
    → parse_digits (pos base) (pos 0) (s ++ (d ∷ []))
      ≡ ok (pos (digits_value base 0 s * base + digit_value d - 2 ^ 64))
unfolding parse_digits
parse_digits_overflow base s d low small digits (byte, digit) fits over under =
    let n = digits_value base 0 s in
    let step = wrapped_value base n (digit_value d) fits small digit (omega arith) under in
    parse_digits-append (pos base) (pos 0) s (d ∷ [])
    ∙ rw (parse_digits-value base 0 s low small digits fits) (
        parse_digits-digit base (pos n) d [] small (byte, digit) (rw step (ground arith))
        ∙ rw step refl)
