-- ===== src/Filters/Attributes.antt =====
-- The attributes of a filter, as filter_evaluate_attribute_internal() of libbitpunch/src/core/filter.c
-- returns them, and the byte order attribute of libbitpunch/src/filters/integer.c.
use Prim.Native.String.{String}
use bitpunch.Base.{ℕ, List, [], ◌∷◌, if◌then◌else◌, bytes_eq}
use bitpunch.Base.Int.{ℤ}
use bitpunch.Base.Machine.{Machine}
use bitpunch.Status.{Result, ok, err, ◌>>=◌, invalid_param}

-- The outcome of evaluating an attribute in the current scope, `err no_item` where it is not set.
-- Each filter declares the type of its attributes, so an evaluation yields a value of that type.
pub record Attributes : Type 0 where
  pub integer : String → Result ℤ
  pub boolean : String → Result ℤ
  pub string : String → Result (List ℕ)

pub data Endian : Type 0 where
  endian_bad endian_big endian_little endian_native : Endian

abbrev pub big_name : List ℕ
big_name = b'b' ∷ b'i' ∷ b'g' ∷ []

abbrev pub little_name : List ℕ
little_name = b'l' ∷ b'i' ∷ b't' ∷ b't' ∷ b'l' ∷ b'e' ∷ []

abbrev pub native_name : List ℕ
native_name = b'n' ∷ b'a' ∷ b't' ∷ b'i' ∷ b'v' ∷ b'e' ∷ []

unfoldable pub str2endian : List ℕ → Endian
str2endian str =
    if bytes_eq str big_name
    then endian_big
    else if bytes_eq str little_name
    then endian_little
    else if bytes_eq str native_name
    then endian_native
    else endian_bad

-- The byte order to use, with "native" resolved.
resolve_endian : Machine → Endian → Result Endian
resolve_endian m endian_bad = err invalid_param
resolve_endian m endian_native = ok (if m.little_endian then endian_little else endian_big)
resolve_endian m endian_big = ok endian_big
resolve_endian m endian_little = ok endian_little

unfoldable pub integer_read_endian_attribute : Machine → Attributes → Result Endian
unfolding str2endian resolve_endian bytes_eq
integer_read_endian_attribute m attrs = do
  name ← attrs.string "@endian"
  resolve_endian m (str2endian name)
