-- ===== src/Filters/FormattedInteger/Digits.antt =====
-- The digits of a number, and what the second loop makes of them.
use bitpunch.Base.{ℕ, ◌+◌, ◌-◌, ◌*◌, ◌^◌, ◌≤◌, ◌<◌, ◌≡◌, refl, ◌∙◌, arith}
use bitpunch.Base.{List, [], ◌∷◌, All, Bool, true, false, ◌&&◌, ltb, leb, ◌==◌, if◌then◌else◌}
use bitpunch.Base.Bits.{all_below, all_below_sound}
use bitpunch.Base.Int.{ℤ, pos, ◌+ℤ◌, ◌*ℤ◌, eqb_ℤ, eqb_ℤ_iff, ltb_ℤ}
use bitpunch.Base.Words.{IsByte, wrap64, wrap64_fits}
use native.Mathlib.Nat.{mul-le-mul_left}
use bitpunch.Status.{ok}
use bitpunch.Filters.FormattedInteger.{bad, plus_sign, minus_sign, lookup, next_value, parse_digits}

-- The value of a character as a digit, and 16 if it is none.
unfoldable pub digit_value : ℕ → ℕ
digit_value c =
    if leb b'0' c && leb c b'9'
    then c - b'0'
    else if leb b'a' c && leb c b'f'
    then c - b'a' + 10
    else if leb b'A' c && leb c b'F'
    then c - b'A' + 10
    else 16

abbrev pub IsDigit : ℕ → ℕ → Type 0
IsDigit base c = IsByte c × (digit_value c < base)

-- The number that digits stand for, behind a number `acc`.
unfoldable pub digits_value : ℕ → ℕ → List ℕ → ℕ
digits_value base acc [] = acc
digits_value base acc (c ∷ s) = digits_value base (acc * base + digit_value c) s

-- The lookup table agrees with the ranges of the characters.
abbrev pub agrees : ℕ → Bool
agrees c =
    if ltb (digit_value c) 16
    then eqb_ℤ (lookup c) (pos (digit_value c))
    else if c == b'+'
    then eqb_ℤ (lookup c) plus_sign
    else if c == b'-'
    then eqb_ℤ (lookup c) minus_sign
    else eqb_ℤ (lookup c) bad

agrees_table : all_below 256 agrees ≡ true
unfolding all_below digit_value lookup
agrees_table = refl

pub agrees_all : (c : ℕ) → IsByte c → agrees c ≡ true
agrees_all c h = all_below_sound 256 agrees c h agrees_table

pub lookup_digit : (c : ℕ) → IsByte c → digit_value c < 16 → lookup c ≡ pos (digit_value c)
lookup_digit c h d = (eqb_ℤ_iff (lookup c) (pos (digit_value c))).0 (ground (arith, agrees_all c h))

pub digits_value-le : (base acc : ℕ) (s : List ℕ) → 1 ≤ base → acc ≤ digits_value base acc s
unfolding digits_value
digits_value-le base acc [] h = omega arith
digits_value-le base acc (c ∷ s) h =
    omega (arith, digits_value-le base (acc * base + digit_value c) s h, grows)
  where
    grows : acc ≤ acc * base
    grows = omega (arith, mul-le-mul_left acc h)

-- Without overflow, a step computes the next value.
pub next_value_fits :
    (base acc v : ℕ)
    → acc * base + v < 2 ^ 63
    → next_value (pos base) (pos acc) (pos v) ≡ pos (acc * base + v)
unfolding ◌+ℤ◌ ◌*ℤ◌ wrap64
next_value_fits base acc v h = ground (
  arith,
  wrap64_fits (pos (acc * base)) (omega arith),
  wrap64_fits (pos (acc * base + v)) (omega arith),
)

-- What the second loop does on a digit.
pub parse_digits-digit :
    (base : ℕ) (parsed : ℤ) (c : ℕ) (s : List ℕ)
    → base ≤ 16
    → IsDigit base c
    → ltb_ℤ (next_value (pos base) parsed (pos (digit_value c))) parsed ≡ false
    → parse_digits (pos base) parsed (c ∷ s)
      ≡ parse_digits (pos base) (next_value (pos base) parsed (pos (digit_value c))) s
unfolding parse_digits
parse_digits-digit base parsed c s small (byte, digit) grows =
    rw (lookup_digit c byte (omega arith), grows) (ground arith)

-- The second loop computes the number that the digits stand for, when it fits an `int64_t`.
pub parse_digits-value :
    (base acc : ℕ) (s : List ℕ)
    → 1 ≤ base
    → base ≤ 16
    → All (IsDigit base) s
    → digits_value base acc s < 2 ^ 63
    → parse_digits (pos base) (pos acc) s ≡ ok (pos (digits_value base acc s))
unfolding parse_digits digits_value
parse_digits-value base acc [] low high digits fits = refl
parse_digits-value base acc (c ∷ s) low high (digit, digits) fits =
    let next = acc * base + digit_value c in
    let step : next_value (pos base) (pos acc) (pos (digit_value c)) ≡ pos next =
      next_value_fits base acc (digit_value c) (omega (arith, digits_value-le base next s low)) in
    let grows : acc ≤ acc * base = omega (arith, mul-le-mul_left acc low) in
    parse_digits-digit base (pos acc) c s high digit (rw step (ground arith))
    ∙ rw step (parse_digits-value base next s low high digits fits)
