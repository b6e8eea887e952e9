-- ===== src/Runs/Host.antt =====
-- A little-endian processor that takes the count of a 64-bit shift modulo 64, as a `Machine`.
use bitpunch.Base.{ℕ, ◌*◌, ◌/◌, ◌%◌, ◌^◌, ◌≡◌, refl, ap, arith, List, [], ◌∷◌, length, All, true}
use bitpunch.Base.Words.{IsByte, IsU64}
use bitpunch.Base.Machine.{Machine, le_value, be_value, IsWordSize}
use bitpunch.Filters.BinaryInteger.Value.{le_bytes}

le_bytes-le_value : (bs : List ℕ) → All IsByte bs → le_bytes (length bs) (le_value bs) ≡ bs
unfolding le_bytes le_value
le_bytes-le_value [] h = refl
le_bytes-le_value (b ∷ bs) (hb, h) = ground (arith, le_bytes-le_value bs h)

abbrev pub masked_shl : ℕ → ℕ → ℕ
masked_shl x k = x * 2 ^ (k % 64) % 2 ^ 64

abbrev pub masked_shr : ℕ → ℕ → ℕ
masked_shr x k = x / 2 ^ (k % 64) % 2 ^ 64

pub masked_shl-lt : (x k : ℕ) → IsU64 (masked_shl x k)
masked_shl-lt x k = omega arith

pub masked_shr-lt : (x k : ℕ) → IsU64 (masked_shr x k)
masked_shr-lt x k = omega arith

pub load_byte : (b : ℕ) → le_value (b ∷ []) ≡ b
unfolding le_value
load_byte b = omega arith

pub be_load :
    (bs : List ℕ)
    → All IsByte bs
    → IsWordSize (length bs)
    → be_value (le_bytes (length bs) (le_value bs)) ≡ be_value bs
be_load bs h size = ap be_value (le_bytes-le_value bs h)

abbrev pub host : Machine
host = record {
  wide_shl = masked_shl;
  wide_shr = masked_shr;
  wide_shl-lt = masked_shl-lt;
  wide_shr-lt = masked_shr-lt;
  little_endian = true;
  load = le_value;
  be_to_host = λ n x. be_value (le_bytes n x);
  le_to_host = λ n x. x;
  load_byte = load_byte;
  be_load = be_load;
  le_load = λ bs h size. refl;
}
