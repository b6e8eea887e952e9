-- ===== src/Runs/FormattedInteger.antt =====
-- Runs of the formatted integer filter.
use bitpunch.Base.{
  All, ◌≢◌, ◌⊎◌, ℕ, ◌≡◌, ◌+◌, ◌-◌, ◌*◌, ◌^◌, refl, arith, List, [], ◌∷◌, ◌++◌, inl, inr, true,
}
use bitpunch.Base.Int.{pos, negsuc, ◌+ℤ◌, ◌*ℤ◌, neg_ℤ}
use bitpunch.Status.{ok, err, no_item}
use bitpunch.Filters.Attributes.{Attributes}
use bitpunch.Filters.FormattedInteger.{formatted_integer_read, parse_digits, lookup, to_int}
use bitpunch.Filters.FormattedInteger.Digits.{digit_value, digits_value}
use bitpunch.Filters.FormattedInteger.Read.{IsSign, signed_value, formatted_integer_read-value}
use bitpunch.Filters.FormattedInteger.Overflow.{parse_digits_overflow}
use bitpunch.Filters.FormattedInteger.Accepts.{IsDigitOf, formatted_integer_read_ok}
use bitpunch.Base.Words.{wrap64, to_u64, to_i64}

abbrev no_attributes : Attributes
no_attributes = record {
  integer = λ name. err no_item;
  boolean = λ name. err no_item;
  string = λ name. err no_item;
}

read_signs_example :
    formatted_integer_read no_attributes (b'-' ∷ b'+' ∷ b'4' ∷ b'2' ∷ [])
    ≡ ok (signed_value true (digits_value 10 0 (b'4' ∷ b'2' ∷ [])))
unfolding digits_value digit_value
read_signs_example =
    formatted_integer_read-value no_attributes 10 (pos 1) (b'-' ∷ b'+' ∷ []) b'4' (b'2' ∷ [])
      (inr (refl, refl)) (inr (refl, refl)) (inl (λ e. cc)) (omega arith) (omega arith)
      (inr refl, (inl refl, tt)) (omega arith) (omega arith)

abbrev zeros : List ℕ
zeros =
    b'2' ∷ b'5' ∷ b'0' ∷ b'0' ∷ b'0' ∷ b'0' ∷ b'0' ∷ b'0' ∷ b'0' ∷ b'0' ∷ b'0' ∷ b'0' ∷ b'0' ∷ b'0'
    ∷ b'0' ∷ b'0' ∷ b'0' ∷ b'0' ∷ b'0' ∷ []

overflow_example :
    parse_digits (pos 10) (pos 0) (zeros ++ (b'0' ∷ []))
    ≡ ok (pos (digits_value 10 0 zeros * 10 + digit_value b'0' - 2 ^ 64))
unfolding digits_value digit_value
overflow_example =
    parse_digits_overflow 10 zeros b'0' (omega arith) (omega arith) (omega arith) (omega arith)
      (omega arith) (omega arith) (omega arith)

minus_42 : formatted_integer_read no_attributes (b'-' ∷ b'4' ∷ b'2' ∷ []) ≡ ok (negsuc 41)
unfolding formatted_integer_read lookup to_int wrap64 to_u64 to_i64 ◌+ℤ◌ ◌*ℤ◌ neg_ℤ
minus_42 = refl

accepts_example :
    (signs digits : List ℕ) × (b'-' ∷ b'4' ∷ b'2' ∷ [] ≡ signs ++ digits)
    × All IsSign signs
    × (digits ≢ [])
    × All (IsDigitOf (to_int (pos 10))) digits
    × ((pos 1 ≢ pos 0) ⊎ (signs ≡ []))
accepts_example =
    formatted_integer_read_ok no_attributes (pos 10) (pos 1) b'-' (b'4' ∷ b'2' ∷ []) (negsuc 41)
      (omega arith) (inr (refl, refl)) (inr (refl, refl)) minus_42
