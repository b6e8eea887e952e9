-- ===== src/Runs/BinaryInteger.antt =====
-- Runs of the integer filter.
use bitpunch.Base.{ℕ, ◌≡◌, refl, arith, [], ◌∷◌, not, ◌⊎◌, inl, inr, ◌*◌}
use bitpunch.Base.Int.{ℤ, pos, negsuc, eqb_ℤ}
use bitpunch.Base.Machine.{be_value, le_value}
use bitpunch.Status.{ok, err, no_item}
use bitpunch.Filters.Attributes.{
  Attributes, Endian, endian_big, big_name, integer_read_endian_attribute,
}
use bitpunch.Filters.BinaryInteger.{extend, binary_integer_read_generic}
use bitpunch.Filters.BinaryInteger.Value.{
  order_value, order_bytes, pattern_of, IsSize, le_bytes, binary_integer_read_generic-value,
  binary_integer_read_generic_roundtrip, binary_integer_read_generic_ok,
}
use bitpunch.Runs.Host.{host}

-- A signed, big-endian integer.
abbrev signed_big : Attributes
signed_big = record {
  integer = λ name. err no_item;
  boolean = λ name. ok (pos 1);
  string = λ name. ok big_name;
}

signed_big_endian : integer_read_endian_attribute host signed_big ≡ ok endian_big
unfolding integer_read_endian_attribute
signed_big_endian = refl

read_minus_two : binary_integer_read_generic host signed_big (0xff ∷ 0xfe ∷ []) ≡ ok (negsuc 1)
unfolding binary_integer_read_generic integer_read_endian_attribute extend le_bytes be_value
    le_value
read_minus_two = refl

read_value_example :
    binary_integer_read_generic host signed_big (0xff ∷ 0xfe ∷ [])
    ≡ ok (extend (not (eqb_ℤ (pos 1) (pos 0))) (8 * 2) (order_value endian_big (0xff ∷ 0xfe ∷ [])))
read_value_example =
    binary_integer_read_generic-value host signed_big (0xff ∷ 0xfe ∷ []) (pos 1) endian_big
      (omega arith) (inr (inl refl)) refl signed_big_endian

roundtrip_example :
    binary_integer_read_generic host signed_big (order_bytes endian_big 4 (pattern_of 4 (negsuc 9)))
    ≡ ok (negsuc 9)
roundtrip_example =
    binary_integer_read_generic_roundtrip host signed_big 4 (negsuc 9) (pos 1) endian_big
      (inr (inr (inl refl))) (omega arith) refl (λ e. cc) signed_big_endian

read_ok_example :
    IsSize 2
    × ((signed : ℤ) × (signed_big.boolean "@signed" ≡ ok signed))
    × (((endian : Endian) × (integer_read_endian_attribute host signed_big ≡ ok endian))
        ⊎ (integer_read_endian_attribute host signed_big ≡ err no_item) × (◌≡◌ {A = ℕ} 2 1))
read_ok_example =
    binary_integer_read_generic_ok host signed_big (0xff ∷ 0xfe ∷ []) (negsuc 1) read_minus_two
