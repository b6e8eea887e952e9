-- ===== src/Expr/Values.antt =====
-- libbitpunch/include/core/expr.h, expr_inlines.h and libbitpunch/src/core/expr.c: the values.
use bitpunch.Base.{ℕ, List, [], ◌∷◌, length, Bool, not, bit_and, bit_or}
use bitpunch.Base.{◌==◌, if◌then◌else◌, Option, none, some}
use bitpunch.Base.Int.{ℤ, pos, ◌-ℤ◌, ltb_ℤ, eqb_ℤ}

-- `enum expr_value_type`, a set of bits.
abbrev pub type_unset : ℕ
type_unset = 0

abbrev pub type_integer : ℕ
type_integer = 1

abbrev pub type_boolean : ℕ
type_boolean = 2

abbrev pub type_string : ℕ
type_string = 4

abbrev pub type_bytes : ℕ
type_bytes = 8

abbrev pub type_data : ℕ
type_data = 16

abbrev pub type_data_range : ℕ
type_data_range = 32

-- EXPR_VALUE_TYPE_ANY
abbrev pub type_any : ℕ
type_any = 63

-- `struct expr_value`: the characters of a string or of bytes are the ones in the range that it
-- points to, and a data source is a reference. `from_box`, which keeps them alive, is left out.
pub data Value : Type 0 where
  unset : Value
  integer : ℤ → Value
  -- an `int` that is tested against 0
  boolean : ℤ → Value
  string bytes : List ℕ → Value
  data_source : ℕ → Value
  data_range : ℕ → ℤ → ℤ → Value

unfoldable pub value_type : Value → ℕ
value_type unset = type_unset
value_type (integer z) = type_integer
value_type (boolean z) = type_boolean
value_type (string s) = type_string
value_type (bytes s) = type_bytes
value_type (data_source ds) = type_data
value_type (data_range ds start end) = type_data_range

-- Truth of an `int`, and the `int` of a test.
unfoldable pub is_true : ℤ → Bool
is_true z = not (eqb_ℤ z (pos 0))

unfoldable pub c_int : Bool → ℤ
c_int b = if b then pos 1 else pos 0

-- `(a > b) - (a < b)`
unfoldable pub sign_of : ℤ → ℤ → ℤ
unfolding c_int
sign_of a b = c_int (ltb_ℤ b a) -ℤ c_int (ltb_ℤ a b)

-- memcmp() on the common length, with the difference of the first two bytes that differ, then the
-- order of the lengths.
unfoldable pub compare_bytes : List ℕ → List ℕ → ℤ
unfolding sign_of
compare_bytes [] [] = pos 0
compare_bytes [] (y ∷ ys) = sign_of (pos 0) (pos (length (y ∷ ys)))
compare_bytes (x ∷ xs) [] = sign_of (pos (length (x ∷ xs))) (pos 0)
compare_bytes (x ∷ xs) (y ∷ ys) =
    let rest = compare_bytes xs ys in if x == y then rest else pos x -ℤ pos y

-- `none` where an assertion fails, or where the second value is of another type than the first.
unfoldable pub expr_value_cmp : Value → Value → Option ℤ
unfolding compare_bytes sign_of
expr_value_cmp (integer a) (integer b) = some (sign_of a b)
expr_value_cmp (string a) (string b) = some (compare_bytes a b)
expr_value_cmp (bytes a) (bytes b) = some (compare_bytes a b)
expr_value_cmp _ _ = none

unfoldable pub expr_value_type_mask_contains_dpath : ℕ → Bool
expr_value_type_mask_contains_dpath mask =
    not (
      bit_and mask (bit_or (bit_or (bit_or type_string type_bytes) type_data) type_data_range) == 0)
