-- ===== src/Filters/FormattedInteger.antt =====
-- libbitpunch/src/filters/formatted_integer.c: integers written as text.
pub mod Digits
pub mod Read
pub mod Accepts
pub mod Overflow
use bitpunch.Base.{ℕ, zero, suc, ◌+◌, ◌-◌, ◌%◌, ◌^◌, List, [], ◌∷◌, get_or}
use bitpunch.Base.{Bool, true, false, not, ◌||◌, ltb, if◌then◌else◌}
use bitpunch.Base.Int.{ℤ, pos, negsuc, ◌+ℤ◌, ◌*ℤ◌, neg_ℤ, eqb_ℤ, ltb_ℤ, leb_ℤ}
use bitpunch.Base.Words.{wrap64}
use bitpunch.Status.{Status, Result, ok, err, ◌>>=◌, no_item, data_error}
use bitpunch.Filters.Attributes.{Attributes}

abbrev pub bad : ℤ
bad = negsuc 0

-- PLUS_SIGN and MINUS_SIGN
abbrev pub plus_sign : ℤ
plus_sign = negsuc 1

abbrev pub minus_sign : ℤ
minus_sign = negsuc 2

-- The rows of `lookup`, sixteen entries each; a row of invalid characters is `bad_row`.
abbrev bad_row : List ℤ → List ℤ
bad_row t =
    bad ∷ bad ∷ bad ∷ bad ∷ bad ∷ bad ∷ bad ∷ bad ∷ bad ∷ bad ∷ bad ∷ bad ∷ bad ∷ bad ∷ bad ∷ bad
    ∷ t

abbrev row_20 : List ℤ → List ℤ
row_20 t =
    bad ∷ bad ∷ bad ∷ bad ∷ bad ∷ bad ∷ bad ∷ bad ∷ bad ∷ bad ∷ bad ∷ plus_sign ∷ bad ∷ minus_sign
    ∷ bad ∷ bad ∷ t

abbrev row_30 : List ℤ → List ℤ
row_30 t =
    pos 0
    ∷ pos 1
    ∷ pos 2
    ∷ pos 3
    ∷ pos 4
    ∷ pos 5
    ∷ pos 6
    ∷ pos 7
    ∷ pos 8
    ∷ pos 9
    ∷ bad
    ∷ bad
    ∷ bad
    ∷ bad
    ∷ bad
    ∷ bad
    ∷ t

abbrev row_40 : List ℤ → List ℤ
row_40 t =
    bad
    ∷ pos 10
    ∷ pos 11
    ∷ pos 12
    ∷ pos 13
    ∷ pos 14
    ∷ pos 15
    ∷ bad
    ∷ bad
    ∷ bad
    ∷ bad
    ∷ bad
    ∷ bad
    ∷ bad
    ∷ bad
    ∷ bad
    ∷ t

abbrev row_60 : List ℤ → List ℤ
row_60 t =
    bad
    ∷ pos 10
    ∷ pos 11
    ∷ pos 12
    ∷ pos 13
    ∷ pos 14
    ∷ pos 15
    ∷ bad
    ∷ bad
    ∷ bad
    ∷ bad
    ∷ bad
    ∷ bad
    ∷ bad
    ∷ bad
    ∷ bad
    ∷ t

lookup_table : List ℤ
lookup_table = bad_row (
    bad_row (
      row_20 (
        row_30 (
          row_40 (
            bad_row (
              row_60 (
                bad_row (
                  bad_row
                    (bad_row (bad_row (bad_row (bad_row (bad_row (bad_row (bad_row [])))))))))))))))

-- `lookup[c]`, for a byte `c`.
unfoldable pub lookup : ℕ → ℤ
unfolding lookup_table
lookup c = get_or lookup_table c bad

-- `(int)z`, with 32 bits.
unfoldable pub to_int : ℤ → ℤ
to_int z =
    let w : ℕ = elim z [ pos n ↦ n % 2 ^ 32 | negsuc n ↦ 2 ^ 32 - 1 - n % 2 ^ 32 ] in
    if ltb w (2 ^ 31) then pos w else negsuc (2 ^ 32 - 1 - w)

-- An attribute with a default.
pub get_default : ℤ → Result ℤ → Result ℤ
get_default d (ok z) = ok z
get_default d (err no_item) = ok d
get_default d (err status) = err status

-- The first loop: signs, up to the first character that is none. An error is that of
-- node_error_with_data_context(), BITPUNCH_DATA_ERROR.
pub skip_signs : Bool → Bool → List ℕ → Result (Bool × List ℕ)
skip_signs signed negative [] = err data_error
skip_signs signed negative (c ∷ rest) =
    let plus = skip_signs signed negative rest in
    let minus = skip_signs signed (not negative) rest in
    let v = lookup c in
    if eqb_ℤ v plus_sign
    then (if signed then plus else err data_error)
    else if eqb_ℤ v minus_sign
    then (if signed then minus else err data_error)
    else if eqb_ℤ v bad
    then err data_error
    else ok (negative, c ∷ rest)

-- `parsed_value * base + lookup_value`, wrapped after each operation.
abbrev pub next_value : ℤ → ℤ → ℤ → ℤ
next_value base parsed v = wrap64 (wrap64 (parsed *ℤ base) +ℤ v)

-- The second loop: digits, up to the end of the buffer.
pub parse_digits : ℤ → ℤ → List ℕ → Result ℤ
parse_digits base parsed [] = ok parsed
parse_digits base parsed (c ∷ rest) =
    let v = lookup c in
    let next = next_value base parsed v in
    let more = parse_digits base next rest in
    if eqb_ℤ v plus_sign || eqb_ℤ v minus_sign || eqb_ℤ v bad
    then err data_error
    else if leb_ℤ base v
    then err data_error
    else if ltb_ℤ next parsed
    then err data_error
    else more

-- An empty buffer has the value of "@empty_value".
empty_value : Result ℤ → Result ℤ
empty_value (ok z) = ok z
empty_value (err no_item) = err data_error
empty_value (err status) = err status

read_text : ℤ → Bool → List ℕ → Result ℤ
unfolding skip_signs parse_digits
read_text base signed buffer = do
  (negative, digits) ← skip_signs signed false buffer
  parsed ← parse_digits base (pos 0) digits
  ok (if negative then wrap64 (neg_ℤ parsed) else parsed)

read_buffer : Attributes → ℤ → Bool → List ℕ → Result ℤ
unfolding read_text empty_value
read_buffer attrs base signed [] = empty_value (attrs.integer "@empty_value")
read_buffer attrs base signed (c ∷ buffer) = read_text base signed (c ∷ buffer)

unfoldable pub formatted_integer_read : Attributes → List ℕ → Result ℤ
unfolding get_default read_buffer
formatted_integer_read attrs buffer = do
  base ← get_default (pos 10) (attrs.integer "@base")
  signed ← get_default (pos 1) (attrs.boolean "@signed")
  read_buffer attrs (to_int base) (not (eqb_ℤ signed (pos 0))) buffer
