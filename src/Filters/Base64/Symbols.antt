-- ===== src/Filters/Base64/Symbols.antt =====
-- The lookup table against the alphabet, and the groups of characters as arithmetic.
use bitpunch.Base.{ℕ, ◌+◌, ◌*◌, ◌/◌, ◌%◌, ◌^◌, ◌<◌, ◌≡◌, refl, arith}
use bitpunch.Base.{
  Bool, true, false, not, ltb, ◌==◌, ==_iff, if◌then◌else◌, ◌&&◌, inl, inr, Bool-cases,
}
use bitpunch.Base.Words.{IsByte}
use bitpunch.Base.Bits.{
  all_below, all_below_sound, bit_or-shift, bit_and-mask, bit_and-shift, le-bit_or, bit_or-lt,
}
use bitpunch.Filters.Base64.{bits, shl32, has_bad_bits, byte_at, quad2, quad3, quad4}
use bitpunch.Filters.Base64.Reference.{symbol, is_symbol}

bits-symbol_table : all_below 64 (λ v. bits (symbol v) == v) ≡ true
unfolding all_below bits symbol
bits-symbol_table = refl

-- The table is a left inverse of the alphabet.
pub bits-symbol : (v : ℕ) → v < 64 → bits (symbol v) ≡ v
bits-symbol v h = (==_iff _ v).0 (all_below_sound 64 _ v h bits-symbol_table)

symbol_table : all_below 64 (λ v. not (symbol v == b'=')) ≡ true
unfolding all_below symbol
symbol_table = refl

pub symbol_not_pad : (v : ℕ) → v < 64 → (symbol v == b'=') ≡ false
symbol_not_pad v h =
    ground (arith, all_below_sound 64 (λ v. not (symbol v == b'=')) v h symbol_table)

abbrev classified : ℕ → Bool
classified c = if is_symbol c then ltb (bits c) 64 else bits c == 0xffff_ffff

classified_table : all_below 256 classified ≡ true
unfolding all_below bits is_symbol
classified_table = refl

-- Characters of the alphabet have six bits, all others have the value -1.
pub bits-lt : (c : ℕ) → IsByte c → is_symbol c ≡ true → bits c < 64
bits-lt c h s = ground (arith, all_below_sound 256 classified c h classified_table)

pub bits_bad : (c : ℕ) → IsByte c → is_symbol c ≡ false → bits c ≡ 0xffff_ffff
bits_bad c h s = ground (arith, all_below_sound 256 classified c h classified_table)

pub quad2_fields :
    (a b : ℕ) → bits a < 64 → bits b < 64 → quad2 a b ≡ bits a * 2 ^ 18 + bits b * 2 ^ 12
unfolding quad2
quad2_fields a b ha hb = ground (arith, bit_or-shift 18 (bits a) (bits b * 2 ^ 12))

pub quad3_fields :
    (a b c : ℕ)
    → bits a < 64
    → bits b < 64
    → bits c < 64
    → quad3 a b c ≡ bits a * 2 ^ 18 + bits b * 2 ^ 12 + bits c * 2 ^ 6
unfolding quad3
quad3_fields a b c ha hb hc =
    ground (arith, quad2_fields a b ha hb, bit_or-shift 12 (bits a * 64 + bits b) (bits c * 2 ^ 6))

pub quad4_fields :
    (a b c d : ℕ)
    → bits a < 64
    → bits b < 64
    → bits c < 64
    → bits d < 64
    → quad4 a b c d ≡ bits a * 2 ^ 18 + bits b * 2 ^ 12 + bits c * 2 ^ 6 + bits d
unfolding quad4
quad4_fields a b c d ha hb hc hd = ground (
  arith,
  quad3_fields a b c ha hb hc,
  bit_or-shift 6 (bits a * 4096 + bits b * 64 + bits c) (bits d),
)

-- The test of the top eight bits is an order on 32-bit numbers.
pub has_bad_bits_lem : (q : ℕ) → q < 2 ^ 32 → has_bad_bits q ≡ not (ltb q (2 ^ 24))
unfolding has_bad_bits
has_bad_bits_lem q h = ground (arith, bit_and-shift 24 q 255, bit_and-mask 8 (q / 2 ^ 24))

pub byte_at_lem : (q k : ℕ) → byte_at q k ≡ q / 2 ^ k % 256
unfolding byte_at
byte_at_lem q k = bit_and-mask 8 (q / 2 ^ k)

pub byte_at-IsByte : (q k : ℕ) → IsByte (byte_at q k)
byte_at-IsByte q k = omega (arith, byte_at_lem q k)

bits-u32 : (c : ℕ) → IsByte c → bits c < 2 ^ 32
bits-u32 c h = elim (Bool-cases (is_symbol c)) [
  | inl s ↦ omega (arith, bits-lt c h s)
  | inr s ↦ omega (arith, bits_bad c h s)
]

quad2-u32 : (a b : ℕ) → quad2 a b < 2 ^ 32
unfolding quad2
quad2-u32 a b = bit_or-lt 32 _ _ (omega arith) (omega arith)

quad3-u32 : (a b c : ℕ) → quad3 a b c < 2 ^ 32
unfolding quad3
quad3-u32 a b c = bit_or-lt 32 _ _ (quad2-u32 a b) (omega arith)

quad4-u32 : (a b c d : ℕ) → IsByte d → quad4 a b c d < 2 ^ 32
unfolding quad4
quad4-u32 a b c d hd = bit_or-lt 32 _ _ (quad3-u32 a b c) (bits-u32 d hd)

-- A group passes the test exactly if each of its characters is in the alphabet.
pub quad2_bad :
    (a b : ℕ) → IsByte a → IsByte b → has_bad_bits (quad2 a b) ≡ not (is_symbol a && is_symbol b)
unfolding quad2
quad2_bad a b ha hb = ground (
  arith,
  has_bad_bits_lem (quad2 a b) (quad2-u32 a b),
  bits-lt a ha,
  bits_bad a ha,
  bits-lt b hb,
  bits_bad b hb,
  quad2_fields a b,
  le-bit_or (shl32 (bits a) 18) (shl32 (bits b) 12),
)

pub quad3_bad :
    (a b c : ℕ)
    → IsByte a
    → IsByte b
    → IsByte c
    → has_bad_bits (quad3 a b c) ≡ not ((is_symbol a && is_symbol b) && is_symbol c)
unfolding quad3
quad3_bad a b c ha hb hc = ground (
  arith,
  has_bad_bits_lem (quad3 a b c) (quad3-u32 a b c),
  quad2_bad a b ha hb,
  has_bad_bits_lem (quad2 a b) (quad2-u32 a b),
  bits-lt a ha,
  bits-lt b hb,
  bits-lt c hc,
  bits_bad c hc,
  quad3_fields a b c,
  le-bit_or (quad2 a b) (shl32 (bits c) 6),
)

pub quad4_bad :
    (a b c d : ℕ)
    → IsByte a
    → IsByte b
    → IsByte c
    → IsByte d
    → has_bad_bits (quad4 a b c d)
      ≡ not (((is_symbol a && is_symbol b) && is_symbol c) && is_symbol d)
unfolding quad4
quad4_bad a b c d ha hb hc hd = ground (
  arith,
  has_bad_bits_lem (quad4 a b c d) (quad4-u32 a b c d hd),
  quad3_bad a b c ha hb hc,
  has_bad_bits_lem (quad3 a b c) (quad3-u32 a b c),
  bits-lt a ha,
  bits-lt b hb,
  bits-lt c hc,
  bits-lt d hd,
  bits_bad d hd,
  quad4_fields a b c d,
  le-bit_or (quad3 a b c) (bits d),
)
