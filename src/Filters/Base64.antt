-- ===== src/Filters/Base64.antt =====
-- libbitpunch/src/filters/base64.c. A buffer is the list of its bytes.
pub mod Table
pub mod Reference
pub mod Symbols
pub mod RoundTrip
pub mod Accepts
use bitpunch.Base.{ℕ, zero, suc, ◌+◌, ◌-◌, ◌*◌, ◌/◌, ◌%◌, ◌^◌, bit_and, bit_or}
use bitpunch.Base.{List, [], ◌∷◌, ◌++◌, length, get_or, Option, none, some}
use bitpunch.Base.{Bool, not, ltb, ◌==◌, if◌then◌else◌}
use bitpunch.Base.Int.{ℤ, pos, negsuc}
use bitpunch.Filters.Base64.Table.{lookup}
use bitpunch.Status.{Result, ok, err, data_error}

-- DECODED_BUFFER_MAX_SIZE
abbrev pub decoded_buffer_max_size : ℕ
decoded_buffer_max_size = 100 * 1024 * 1024

-- `(unsigned int)v`, with 32 bits.
abbrev pub to_u32 : ℤ → ℕ
to_u32 (pos n) = n % 2 ^ 32
to_u32 (negsuc n) = 2 ^ 32 - 1 - n % 2 ^ 32

-- `(unsigned int)lookup[c]`
unfoldable pub bits : ℕ → ℕ
unfolding lookup
bits c = to_u32 (lookup c)

-- `x << k` on an `unsigned int`.
abbrev pub shl32 : ℕ → ℕ → ℕ
shl32 x k = x * 2 ^ k % 2 ^ 32

-- `(quad & 0xff000000u) != 0`
unfoldable pub has_bad_bits : ℕ → Bool
has_bad_bits quad = not (bit_and quad 0xff000000 == 0)

-- `(quad >> k) & 0xff`
unfoldable pub byte_at : ℕ → ℕ → ℕ
byte_at quad k = bit_and (quad / 2 ^ k) 0xff

-- `decoded_quad` after two, three and four characters.
unfoldable pub quad2 : ℕ → ℕ → ℕ
quad2 a b = bit_or (shl32 (bits a) 18) (shl32 (bits b) 12)

unfoldable pub quad3 : ℕ → ℕ → ℕ → ℕ
quad3 a b c = bit_or (quad2 a b) (shl32 (bits c) 6)

unfoldable pub quad4 : ℕ → ℕ → ℕ → ℕ → ℕ
quad4 a b c d = bit_or (quad3 a b c) (bits d)

-- The test behind the last group.
checked : ℕ → List ℕ → Option (List ℕ)
checked quad out = if has_bad_bits quad then none else some out

-- The last four characters, which may end in '='. Any other input is out of reach: the size is a
-- multiple of four.
pub decode_last : List ℕ → List ℕ → Option (List ℕ)
unfolding checked
decode_last (a ∷ b ∷ c ∷ d ∷ []) out =
    let out1 = out ++ (byte_at (quad2 a b) 16 ∷ []) in
    if c == b'='
    then (if d == b'=' then checked (quad2 a b) out1 else none)
    else (let out2 = out1 ++ (byte_at (quad3 a b c) 8 ∷ []) in
        if d == b'='
        then checked (quad3 a b c) out2
        else checked (quad4 a b c d) (out2 ++ (byte_at (quad4 a b c d) 0 ∷ [])))
decode_last _ out = none

-- The loop `while (in < encoded_end)`, which takes all groups of four characters but the last.
pub decode_quads : ℕ → List ℕ → List ℕ → Option (List ℕ)
unfolding decode_last
decode_quads zero s out = decode_last s out
decode_quads (suc n) (a ∷ b ∷ c ∷ d ∷ s) out =
    let quad = quad4 a b c d in
    let rest = decode_quads n s (out ++ (byte_at quad 16 ∷ byte_at quad 8 ∷ byte_at quad 0 ∷ [])) in
    if has_bad_bits quad then none else rest
decode_quads (suc n) _ out = none

-- `none` is the result -1; otherwise the decoded bytes, whose number is the result.
unfoldable pub base64_decode : List ℕ → Option (List ℕ)
unfolding decode_quads
base64_decode encoded =
    if not (length encoded % 4 == 0)
    then none
    else (if length encoded == 0 then some [] else decode_quads (length encoded / 4 - 1) encoded [])

-- `(buffer_size + 3) & ~0x3` on a `size_t`.
abbrev pub decoded_max_length : ℕ → ℕ
decoded_max_length size = bit_and ((size + 3) % 2 ^ 64) (2 ^ 64 - 4)

unfoldable pub base64_read : List ℕ → Result (List ℕ)
unfolding base64_decode
base64_read buffer =
    if ltb decoded_buffer_max_size (decoded_max_length (length buffer))
    then err data_error
    else elim (base64_decode buffer) [ none ↦ err data_error | some out ↦ ok out ]
