-- ===== src/Filters/BinaryInteger.antt =====
-- libbitpunch/src/filters/integer.c: fixed-size integers of either byte order.
pub mod Value
use bitpunch.Base.{
  ℕ, zero, suc, ◌+◌, ◌-◌, ◌*◌, ◌^◌, List, Bool, length, ltb, ◌==◌, ◌||◌, not, if◌then◌else◌,
}
use bitpunch.Base.Int.{ℤ, pos, negsuc, eqb_ℤ}
use bitpunch.Base.Words.{to_i64}
use bitpunch.Base.Machine.{Machine}
use bitpunch.Status.{Status, Result, ok, err, ◌>>=◌, error, invalid_param, no_item, not_implemented}
use bitpunch.Filters.Attributes.{
  Attributes, Endian, endian_bad, endian_big, endian_little, endian_native,
  integer_read_endian_attribute,
}

-- The byte order to read in: without an attribute it does not matter for a single byte, and is
-- required for anything larger.
choose_order : ℕ → Result Endian → Result Endian
choose_order size (ok endian) = ok endian
choose_order size (err no_item) = if ltb 1 size then err invalid_param else ok endian_big
choose_order size (err status) = err status

-- `(int64_t)(intN_t)x` and `(int64_t)(uintN_t)x`, for `n` bits.
unfoldable pub extend : Bool → ℕ → ℕ → ℤ
extend signed n x =
    if signed then (if ltb x (2 ^ (n - 1)) then pos x else negsuc (2 ^ n - 1 - x)) else to_i64 x

-- `beNtoh(*(uintN_t *)buffer)` and `leNtoh(…)`. Any other order is stopped by an assertion.
read_word : Machine → Endian → List ℕ → Result ℕ
read_word m endian_big buffer = ok (m.be_to_host (length buffer) (m.load buffer))
read_word m endian_little buffer = ok (m.le_to_host (length buffer) (m.load buffer))
read_word m endian buffer = err error

-- The branches for 8 bits: `be8toh` and `le8toh` are the identity.
read_byte : Machine → Endian → List ℕ → Result ℕ
read_byte m endian_big buffer = ok (m.load buffer)
read_byte m endian_little buffer = ok (m.load buffer)
read_byte m endian buffer = err error

-- `switch (buffer_size)`
read_sized : Machine → Bool → Endian → List ℕ → Result ℤ
read_sized m signed endian buffer =
    let size = length buffer in
    if size == 1
    then (read_byte m endian buffer >>= λ x. ok (extend signed 8 x))
    else if size == 2 || size == 4 || size == 8
    then (read_word m endian buffer >>= λ x. ok (extend signed (8 * size) x))
    else err not_implemented

unfoldable pub binary_integer_read_generic : Machine → Attributes → List ℕ → Result ℤ
unfolding choose_order read_sized read_word read_byte
binary_integer_read_generic m attrs buffer = do
  signed ← attrs.boolean "@signed"
  endian ← choose_order (length buffer) (integer_read_endian_attribute m attrs)
  read_sized m (not (eqb_ℤ signed (pos 0))) endian buffer
