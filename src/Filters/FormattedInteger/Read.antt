-- ===== src/Filters/FormattedInteger/Read.antt =====
-- The value of a text of signs and digits, and the texts that have one.
use bitpunch.Base.{ℕ, ◌^◌, ◌≤◌, ◌<◌, ◌≡◌, refl, ap, ◌∙◌, arith, ◌≢◌, ◌⊎◌, inl, inr}
use bitpunch.Base.{List, [], ◌∷◌, ◌++◌, All, Bool, true, false, not, ◌==◌, if◌then◌else◌}
use bitpunch.Base.Int.{ℤ, pos, neg_ℤ, eqb_ℤ, eqb_ℤ_iff}
use bitpunch.Base.Words.{wrap64, wrap64_fits}
use bitpunch.Status.{Result, ok, err, no_item}
use bitpunch.Filters.Attributes.{Attributes}
use bitpunch.Filters.FormattedInteger.{
  plus_sign, minus_sign, lookup, to_int, get_default, skip_signs, read_text, read_buffer,
  formatted_integer_read,
}
use bitpunch.Filters.FormattedInteger.Digits.{
  IsDigit, digits_value, lookup_digit, parse_digits-value,
}

abbrev pub IsSign : ℕ → Type 0
IsSign c = (c ≡ b'+') ⊎ (c ≡ b'-')

-- The sign of a number behind signs: each `-` turns it.
abbrev pub sign_after : Bool → List ℕ → Bool
sign_after negative [] = negative
sign_after negative (c ∷ signs) =
    if c == b'-' then sign_after (not negative) signs else sign_after negative signs

abbrev pub signed_value : Bool → ℕ → ℤ
signed_value negative n = if negative then neg_ℤ (pos n) else pos n

lookup_signs : (lookup b'+' ≡ plus_sign) × (lookup b'-' ≡ minus_sign)
unfolding lookup
lookup_signs = (refl, refl)

skip_signs-digit :
    (signed negative : Bool) (base c : ℕ) (s : List ℕ)
    → base ≤ 16
    → IsDigit base c
    → skip_signs signed negative (c ∷ s) ≡ ok (negative, c ∷ s)
unfolding skip_signs
skip_signs-digit signed negative base c s small (byte, digit) =
    rw (lookup_digit c byte (omega arith)) (ground arith)

-- Signs are skipped up to the first digit.
skip_signs-signs :
    (negative : Bool) (signs : List ℕ) (base c : ℕ) (s : List ℕ)
    → base ≤ 16
    → All IsSign signs
    → IsDigit base c
    → skip_signs true negative (signs ++ (c ∷ s)) ≡ ok (sign_after negative signs, c ∷ s)
unfolding skip_signs
skip_signs-signs negative [] base c s small all digit =
    skip_signs-digit true negative base c s small digit
skip_signs-signs negative (b ∷ signs) base c s small (inl e, all) digit =
    rw (e, lookup_signs.0) (skip_signs-signs negative signs base c s small all digit)
skip_signs-signs negative (b ∷ signs) base c s small (inr e, all) digit =
    rw (e, lookup_signs.1) (skip_signs-signs (not negative) signs base c s small all digit)

skip_allowed_signs :
    (signed : Bool) (signs : List ℕ) (base c : ℕ) (s : List ℕ)
    → (signed ≡ true) ⊎ (signs ≡ [])
    → base ≤ 16
    → All IsSign signs
    → IsDigit base c
    → skip_signs signed false (signs ++ (c ∷ s)) ≡ ok (sign_after false signs, c ∷ s)
skip_allowed_signs signed signs base c s (inl e) small all digit =
    rw e (skip_signs-signs false signs base c s small all digit)
skip_allowed_signs signed signs base c s (inr e) small all digit =
    rw e (skip_signs-digit signed false base c s small digit)

apply_sign :
    (negative : Bool) (n : ℕ)
    → n < 2 ^ 63
    → ◌≡◌ {A = Result ℤ}
        (ok (if negative then wrap64 (neg_ℤ (pos n)) else pos n))
        (ok (signed_value negative n))
unfolding neg_ℤ
apply_sign true n h = ap ok (wrap64_fits (neg_ℤ (pos n)) (ground arith))
apply_sign false n h = refl

read_text-value :
    (base : ℕ) (signed : Bool) (signs : List ℕ) (c : ℕ) (s : List ℕ)
    → (signed ≡ true) ⊎ (signs ≡ [])
    → 1 ≤ base
    → base ≤ 16
    → All IsSign signs
    → All (IsDigit base) (c ∷ s)
    → digits_value base 0 (c ∷ s) < 2 ^ 63
    → read_text (pos base) signed (signs ++ (c ∷ s))
      ≡ ok (signed_value (sign_after false signs) (digits_value base 0 (c ∷ s)))
unfolding read_text
read_text-value base signed signs c s allowed low high all digits fits =
    rw
      (
        skip_allowed_signs signed signs base c s allowed high all digits.0,
        parse_digits-value base 0 (c ∷ s) low high digits fits,
      )
      (apply_sign (sign_after false signs) (digits_value base 0 (c ∷ s)) fits)

read_buffer-text :
    (attrs : Attributes) (base : ℤ) (signed : Bool) (signs : List ℕ) (c : ℕ) (s : List ℕ)
    → read_buffer attrs base signed (signs ++ (c ∷ s)) ≡ read_text base signed (signs ++ (c ∷ s))
unfolding read_buffer
read_buffer-text attrs base signed [] c s = refl
read_buffer-text attrs base signed (b ∷ signs) c s = refl

-- The value of an attribute with a default.
abbrev pub IsSetOr : ℤ → Result ℤ → ℤ → Type 0
IsSetOr d r z = (r ≡ ok z) ⊎ (r ≡ err no_item) × (z ≡ d)

pub get_default-value : (d z : ℤ) (r : Result ℤ) → IsSetOr d r z → get_default d r ≡ ok z
unfolding get_default
get_default-value d z r (inl e) = rw e refl
get_default-value d z r (inr (e, f)) = rw (e, f) refl

allowed_signs :
    (signed : ℤ) (signs : List ℕ)
    → (signed ≢ pos 0) ⊎ (signs ≡ [])
    → (not (eqb_ℤ signed (pos 0)) ≡ true) ⊎ (signs ≡ [])
allowed_signs signed signs (inl h) = inl (ground (arith, eqb_ℤ_iff signed (pos 0)))
allowed_signs signed signs (inr h) = inr h

to_int-small : (base : ℕ) → base ≤ 16 → to_int (pos base) ≡ pos base
unfolding to_int
to_int-small base h = ground arith

-- A text of signs and then digits of the base, where the base is that of "@base", or 10 without it,
-- and signs are absent if "@signed" is 0, has the value of its digits, negative behind an odd number
-- of `-`, when the digits stand for less than 2 ^ 63.
pub formatted_integer_read-value :
    (attrs : Attributes) (base : ℕ) (signed : ℤ) (signs : List ℕ) (c : ℕ) (s : List ℕ)
    → IsSetOr (pos 10) (attrs.integer "@base") (pos base)
    → IsSetOr (pos 1) (attrs.boolean "@signed") signed
    → (signed ≢ pos 0) ⊎ (signs ≡ [])
    → 1 ≤ base
    → base ≤ 16
    → All IsSign signs
    → All (IsDigit base) (c ∷ s)
    → digits_value base 0 (c ∷ s) < 2 ^ 63
    → formatted_integer_read attrs (signs ++ (c ∷ s))
      ≡ ok (signed_value (sign_after false signs) (digits_value base 0 (c ∷ s)))
unfolding formatted_integer_read
formatted_integer_read-value attrs base signed signs c s hb hs allowed low high all digits fits =
    rw
      (
        get_default-value (pos 10) (pos base) (attrs.integer "@base") hb,
        get_default-value (pos 1) signed (attrs.boolean "@signed") hs,
      )
      (read_buffer-text attrs (to_int (pos base)) (not (eqb_ℤ signed (pos 0))) signs c s
        ∙ rw (to_int-small base high) (
            read_text-value base (not (eqb_ℤ signed (pos 0))) signs c s
              (allowed_signs signed signs allowed) low high all digits fits))
