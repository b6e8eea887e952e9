-- ===== src/Filters/Varint.antt =====
-- libbitpunch/src/filters/varint.c: integers in groups of seven bits.
pub mod Value
pub mod Size
use bitpunch.Base.{ℕ, zero, suc, ◌+◌, ◌*◌, ◌/◌, ◌%◌, ◌^◌, bit_and, bit_or}
use bitpunch.Base.{Bool, List, [], ◌∷◌, ◌==◌, if◌then◌else◌}
use bitpunch.Base.Int.{ℤ}
use bitpunch.Base.Words.{to_i64}
use bitpunch.Base.Machine.{Machine, shl64}
use bitpunch.Status.{Status, Result, ok, err, data_error, no_item, ◌>>=◌}
use bitpunch.Filters.Attributes.{
  Attributes, Endian, endian_bad, endian_big, endian_little, endian_native,
  integer_read_endian_attribute,
}

-- `!(b & 0x80)`: the byte ends a number.
unfoldable pub is_last : ℕ → Bool
is_last b = bit_and b 0x80 == 0

-- The loop over the bytes from `bytepos` on.
pub size_loop : List ℕ → ℕ → Result ℕ
size_loop [] bytepos = err data_error
size_loop (b ∷ rest) bytepos =
    let more = size_loop rest (bytepos + 1) in if is_last b then ok (bytepos + 1) else more

unfoldable pub compute_item_size__varint : List ℕ → Result ℕ
unfolding size_loop is_last
compute_item_size__varint buffer = size_loop buffer 0

pub little_loop : Machine → List ℕ → ℕ → ℕ → Result ℤ
little_loop m [] cur_shift rawvalue = err data_error
little_loop m (b ∷ rest) cur_shift rawvalue =
    let rawvalue' = bit_or rawvalue (shl64 m (bit_and b 0x7f) cur_shift) in
    let more = little_loop m rest (cur_shift + 7) rawvalue' in
    if is_last b then ok (to_i64 rawvalue') else more

unfoldable pub varint_read__little_endian : Machine → List ℕ → Result ℤ
unfolding little_loop is_last
varint_read__little_endian m buffer = little_loop m buffer 0 0

pub big_loop : List ℕ → ℕ → Result ℤ
big_loop [] rawvalue = err data_error
big_loop (b ∷ rest) rawvalue =
    let rawvalue' = bit_or (rawvalue * 2 ^ 7 % 2 ^ 64) (bit_and b 0x7f) in
    let more = big_loop rest rawvalue' in if is_last b then ok (to_i64 rawvalue') else more

unfoldable pub varint_read__big_endian : List ℕ → Result ℤ
unfolding big_loop is_last
varint_read__big_endian buffer = big_loop buffer 0

-- The reader for a byte order; every order but the big one is read as the little one.
read_in_order : Machine → Endian → List ℕ → Result ℤ
unfolding varint_read__big_endian varint_read__little_endian
read_in_order m endian_big buffer = varint_read__big_endian buffer
read_in_order m endian buffer = varint_read__little_endian m buffer

-- The byte order of the attribute; little-endian where it is not set.
choose_order : Result Endian → Result Endian
choose_order (ok endian) = ok endian
choose_order (err no_item) = ok endian_little
choose_order (err status) = err status

unfoldable pub varint_read : Machine → Attributes → List ℕ → Result ℤ
unfolding read_in_order choose_order
varint_read m attrs buffer = do
  endian ← choose_order (integer_read_endian_attribute m attrs)
  read_in_order m endian buffer
