-- ===== src/Runs/Varint.antt =====
-- Runs of the varint filter: cases of the unit test in libbitpunch/src/filters/varint.c.
use bitpunch.Base.{ℕ, ◌%◌, ◌^◌, ◌-◌, ◌≡◌, refl, arith, List, [], ◌∷◌, ◌++◌, take, ◌↔◌}
use bitpunch.Base.Int.{pos}
use bitpunch.Base.Words.{to_i64}
use bitpunch.Base.Machine.{shl64}
use bitpunch.Status.{ok}
use bitpunch.Filters.Varint.{
  compute_item_size__varint, varint_read__little_endian, varint_read__big_endian,
}
use bitpunch.Filters.Varint.Value.{
  little_value, big_value_from, varint_read__little_endian-value, varint_read__big_endian-value,
}
use bitpunch.Filters.Varint.Size.{
  IsNumber, compute_item_size__varint_iff, varint_item, leb128, varint_read__little_endian-leb128,
}
use bitpunch.Runs.Host.{host}

abbrev six : List ℕ
six = 0xc0 ∷ 0xd2 ∷ 0x93 ∷ 0xb2 ∷ 0x82 ∷ 0x77 ∷ []

little_six : varint_read__little_endian host six ≡ ok (pos 4089450916160)
unfolding varint_read__little_endian to_i64 shl64
little_six = refl

big_six : varint_read__big_endian six ≡ ok (pos 2221075628407)
unfolding varint_read__big_endian to_i64
big_six = refl

size_six : compute_item_size__varint (six ++ (7 ∷ [])) ≡ ok 6
unfolding compute_item_size__varint
size_six = refl

little_value_example :
    varint_read__little_endian host (six ++ (7 ∷ []))
    ≡ ok (to_i64 (little_value (six ++ (7 ∷ [])) % 2 ^ 64))
little_value_example =
    varint_read__little_endian-value host (six ++ (7 ∷ [])) 6 (omega arith) size_six (omega arith)

big_value_example :
    varint_read__big_endian (six ++ (7 ∷ []))
    ≡ ok (to_i64 (big_value_from 0 (six ++ (7 ∷ [])) % 2 ^ 64))
big_value_example = varint_read__big_endian-value (six ++ (7 ∷ [])) 6 (omega arith) size_six

item_size_example :
    (compute_item_size__varint (six ++ (7 ∷ [])) ≡ ok 6) ↔ IsNumber 6 (six ++ (7 ∷ []))
item_size_example = compute_item_size__varint_iff (six ++ (7 ∷ [])) 6 (omega arith)

varint_item_example :
    (compute_item_size__varint (take 6 (six ++ (7 ∷ []))) ≡ ok 6)
    × (varint_read__little_endian host (take 6 (six ++ (7 ∷ [])))
        ≡ varint_read__little_endian host (six ++ (7 ∷ [])))
    × (varint_read__big_endian (take 6 (six ++ (7 ∷ [])))
        ≡ varint_read__big_endian (six ++ (7 ∷ [])))
varint_item_example = varint_item host (six ++ (7 ∷ [])) 6 size_six

leb128_example :
    varint_read__little_endian host (leb128 9 (2 ^ 64 - 1) ++ (1 ∷ [])) ≡ ok (to_i64 (2 ^ 64 - 1))
leb128_example =
    varint_read__little_endian-leb128 host (2 ^ 64 - 1) (1 ∷ []) (omega arith) (omega arith)
