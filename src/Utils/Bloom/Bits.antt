-- ===== src/Utils/Bloom/Bits.antt =====
-- Inserting a mask in a bloom: it is contained from then on.
use bitpunch.Base.{ℕ, zero, suc, ◌+◌, ◌-◌, ◌/◌, ◌%◌, ◌^◌, ◌≤◌, ◌<◌, ◌≡◌, bit_and, arith}
use bitpunch.Base.Bits.{bit_and_step, bit_and-zero, bit_and-mask, bit_or-lt}
use bitpunch.Utils.Bloom.{hash_bloom_mask, mask_bit}
use native.Mathlib.Nat.{pow-suc, pow-le-pow_right}

bit_and-low : (x y : ℕ) → bit_and x y % 2 ≤ x % 2
bit_and-low x y = ground (arith, bit_and_step x y)

bit_and-half : (x y : ℕ) → bit_and x y / 2 ≡ bit_and (x / 2) (y / 2)
bit_and-half x y = ground (arith, bit_and_step x y)

-- What is apart from a mask stays so.
bit_and-apart_below : (bound x y m : ℕ) → m < bound → bit_and x m ≡ 0 → bit_and (bit_and x y) m ≡ 0
bit_and-apart_below zero x y m h e = elim h [ ]
bit_and-apart_below (suc bound) x y zero h e = bit_and-zero (bit_and x y)
bit_and-apart_below (suc bound) x y (suc m) h e =
    let half = bit_and-apart_below bound (x / 2) (y / 2) (suc m / 2) (omega arith) in
    ground (
      arith,
      bit_and_step x (suc m),
      bit_and_step (bit_and x y) (suc m),
      bit_and-low x y,
      bit_and-half x y,
      half,
    )

pub bit_and-apart : (x y m : ℕ) → bit_and x m ≡ 0 → bit_and (bit_and x y) m ≡ 0
bit_and-apart x y m = bit_and-apart_below (suc m) x y m (omega arith)

complement_step :
    (x c m : ℕ)
    → c % 2 + m % 2 ≡ 1
    → bit_and (bit_and (x / 2) (c / 2)) (m / 2) ≡ 0
    → bit_and (bit_and x c) m ≡ 0
complement_step x c m low half =
    ground (arith, bit_and_step (bit_and x c) m, bit_and_step x c, bit_and-half x c, half)

-- The complement of a mask of k bits takes the mask away.
pub bit_and-complement : (k x m : ℕ) → m < 2 ^ k → bit_and (bit_and x (2 ^ k - 1 - m)) m ≡ 0
bit_and-complement zero x zero h = bit_and-zero _
bit_and-complement zero x (suc m) h = let absurdity : ⊥ = omega (arith, h) in elim absurdity [ ]
bit_and-complement (suc k) x m h =
    let half = bit_and-complement k (x / 2) (m / 2) (omega (arith, pow-suc 2 k)) in
    let rest : (2 ^ suc k - 1 - m) / 2 ≡ 2 ^ k - 1 - m / 2 = omega (arith, pow-suc 2 k) in
    let low : (2 ^ suc k - 1 - m) % 2 + m % 2 ≡ 1 = omega (arith, pow-suc 2 k) in
    complement_step x (2 ^ suc k - 1 - m) m low (rw rest half)

mask_bit-lt : (h : ℕ) → mask_bit h < 2 ^ 64
mask_bit-lt h =
    let place : bit_and h 63 ≤ 63 = omega (arith, bit_and-mask 6 h) in
    let power : 2 ^ bit_and h 63 ≤ 2 ^ 63 = pow-le-pow_right {n = 2} (omega arith) place in
    omega (arith, power)

-- A bloom contains a mask that is inserted, and keeps the others.
pub hash_bloom_mask-lt : (h : ℕ) → hash_bloom_mask h < 2 ^ 64
unfolding hash_bloom_mask
hash_bloom_mask-lt h =
    bit_or-lt 64 _ _
      (bit_or-lt 64 _ _ (bit_or-lt 64 _ _ (mask_bit-lt h) (mask_bit-lt (h / 2 ^ 6)))
        (mask_bit-lt (h / 2 ^ 12)))
      (mask_bit-lt (h / 2 ^ 18))
