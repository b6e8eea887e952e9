-- ===== src/Filters/FormattedInteger/Accepts.antt =====
-- Only signs and then digits of the base are accepted.
use bitpunch.Base.{ℕ, ◌<◌, ◌≡◌, refl, sym, ap, arith, ◌≢◌, ◌⊎◌, inl, inr}
use bitpunch.Base.{List, [], ◌∷◌, ◌++◌, All, Bool, true, false, not}
use bitpunch.Base.Int.{ℤ, pos, ◌<ℤ◌, eqb_ℤ}
use bitpunch.Base.Words.{IsByte}
use mathlib.Core.Path.{subst}
use bitpunch.Status.{ok, >>=-eq-ok}
use bitpunch.Filters.Attributes.{Attributes}
use bitpunch.Filters.FormattedInteger.{
  lookup, to_int, next_value, skip_signs, parse_digits, read_text, read_buffer,
  formatted_integer_read,
}
use bitpunch.Filters.FormattedInteger.Digits.{digit_value, agrees_all}
use bitpunch.Filters.FormattedInteger.Read.{IsSign, sign_after, IsSetOr, get_default-value}

-- A digit of a base that is any `int`.
abbrev pub IsDigitOf : ℤ → ℕ → Type 0
IsDigitOf base c = (digit_value c < 16) × (pos (digit_value c) <ℤ base)

parse_digits_ok :
    (base z w : ℤ) (s : List ℕ)
    → All IsByte s
    → parse_digits base z s ≡ ok w
    → All (IsDigitOf base) s
unfolding parse_digits
parse_digits_ok base z w [] bytes h = tt
parse_digits_ok base z w (c ∷ s) (byte, bytes) h =
    ground (arith, agrees_all c byte, parse_digits_ok base (next_value base z (lookup c)) w s bytes)

skip_signs-cases :
    (signed negative n : Bool) (c : ℕ) (s t : List ℕ)
    → IsByte c
    → skip_signs signed negative (c ∷ s) ≡ ok (n, t)
    → ((c ≡ b'+') × (signed ≡ true) × (skip_signs signed negative s ≡ ok (n, t)))
      ⊎ ((c ≡ b'-') × (signed ≡ true) × (skip_signs signed (not negative) s ≡ ok (n, t)))
      ⊎ ((t ≡ c ∷ s) × (n ≡ negative))
unfolding skip_signs
skip_signs-cases signed negative n c s t byte h = ground (arith, agrees_all c byte)

-- A buffer is signs, allowed only if `signed`, and then a text that is not empty.
abbrev Splits : Bool → Bool → List ℕ → Bool → List ℕ → Type 0
Splits signed negative s n t =
    (signs : List ℕ) × (s ≡ signs ++ t)
    × All IsSign signs
    × (t ≢ [])
    × ((signed ≡ true) ⊎ (signs ≡ []))
    × (n ≡ sign_after negative signs)

skip_signs_ok :
    (signed negative n : Bool) (s t : List ℕ)
    → All IsByte s
    → skip_signs signed negative s ≡ ok (n, t)
    → Splits signed negative s n t
unfolding skip_signs
skip_signs_ok signed negative n [] t bytes h = cc
skip_signs_ok signed negative n (c ∷ s) t (byte, bytes) h =
    elim (skip_signs-cases signed negative n c s t byte h) [
      | inl (e, on, k) ↦
          let (signs, split, all, some_left, allowed, sign) =
            skip_signs_ok signed negative n s t bytes k in
          (c ∷ signs, ap (λ r. c ∷ r) split, (inl e, all), some_left, inl on, rw e sign)
      | inr (inl (e, on, k)) ↦
          let (signs, split, all, some_left, allowed, sign) =
            skip_signs_ok signed (not negative) n s t bytes k in
          (c ∷ signs, ap (λ r. c ∷ r) split, (inr e, all), some_left, inl on, rw e sign)
      | inr (inr (e, f)) ↦ ([], sym e, tt, (λ z. cc), inr refl, f)
    ]

bytes_behind : (s t : List ℕ) → All IsByte (s ++ t) → All IsByte t
bytes_behind [] t h = h
bytes_behind (x ∷ s) t h = bytes_behind s t h.1

-- Whatever buffer of bytes is read as a number, but for the empty one, is a text of signs and then at
-- least one digit, each less than the base; and there is no sign where "@signed" is 0.
pub formatted_integer_read_ok :
    (attrs : Attributes) (base signed : ℤ) (c : ℕ) (s : List ℕ) (z : ℤ)
    → All IsByte (c ∷ s)
    → IsSetOr (pos 10) (attrs.integer "@base") base
    → IsSetOr (pos 1) (attrs.boolean "@signed") signed
    → formatted_integer_read attrs (c ∷ s) ≡ ok z
    → (signs digits : List ℕ) × (c ∷ s ≡ signs ++ digits)
      × All IsSign signs
      × (digits ≢ [])
      × All (IsDigitOf (to_int base)) digits
      × ((signed ≢ pos 0) ⊎ (signs ≡ []))
unfolding formatted_integer_read read_buffer read_text
formatted_integer_read_ok attrs base signed c s z bytes hb hs h =
    let k =
      (rw
        (
          get_default-value (pos 10) base (attrs.integer "@base") hb,
          get_default-value (pos 1) signed (attrs.boolean "@signed") hs,
        )
        at h) in
    let (split, hsplit, k2) =
      >>=-eq-ok (skip_signs (not (eqb_ℤ signed (pos 0))) false (c ∷ s)) _ k in
    let (w, hparse, k3) = >>=-eq-ok (parse_digits (to_int base) (pos 0) split.1) _ k2 in
    let (signs, whole, all, some_left, allowed, sign) =
      skip_signs_ok (not (eqb_ℤ signed (pos 0))) false split.0 (c ∷ s) split.1 bytes hsplit in
    (
      signs,
      split.1,
      whole,
      all,
      some_left,
      parse_digits_ok (to_int base) (pos 0) w split.1
          (bytes_behind signs split.1 (subst (λ r. All IsByte r) whole bytes)) hparse,
      elim allowed [ inl on ↦ inl (λ e. ground (arith, e)) | inr none ↦ inr none ],
    )
