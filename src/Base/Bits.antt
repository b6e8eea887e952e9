-- ===== src/Base/Bits.antt =====
-- Laws of `bit_and` and `bit_or` at variables, from the digits that the native operations stand for.
use Prim.Native.Nat.{ℕ, zero, suc, ◌+◌, ◌-◌, ◌*◌, ◌/◌, ◌%◌, ◌^◌, ◌≤◌, ◌<◌, min, max}
use Prim.Native.Nat.{bit_and, bit_or, digits, bit_and-bitwise, bit_or-bitwise}
use mathlib.Core.Path.{◌≡◌, refl, sym, ap, ◌∙◌}
use mathlib.Core.Bool.{Bool, true, ◌&&◌}
use native.Mathlib.Nat.{pow-suc, one-le-pow, le_refl, div-div-eq-div-mul, mul-one, div-one}
use native.Mathlib.Omega.{arith}

-- `digits` needs no more rounds than the first number's value.
module _ (z : ℕ → ℕ) (f : ℕ → ℕ → ℕ) where
  rounds_agree : (n m x y : ℕ) → x ≤ n → x ≤ m → digits z f n x y ≡ digits z f m x y
  rounds_agree zero zero x y hn hm = refl
  rounds_agree (suc n) zero zero y hn hm = refl
  rounds_agree zero (suc m) zero y hn hm = refl
  rounds_agree (suc n) (suc m) zero y hn hm = refl
  rounds_agree zero (suc m) (suc x) y hn hm = elim hn [ ]
  rounds_agree (suc n) zero (suc x) y hn hm = elim hm [ ]
  rounds_agree (suc n) (suc m) (suc x) y hn hm =
      rw (rounds_agree n m (suc x / 2) (y / 2) (omega arith) (omega arith))

pub bit_and_step : (x y : ℕ) → bit_and x y ≡ min (x % 2) (y % 2) + 2 * bit_and (x / 2) (y / 2)
bit_and_step zero y = simp bit_and-bitwise (omega arith)
bit_and_step (suc x) y =
    simp bit_and-bitwise
      (omega (arith, rounds_agree (λ t. 0) min x (suc x / 2) _ (y / 2) (omega arith) (le_refl _)))

pub bit_or_step : (x y : ℕ) → bit_or x y ≡ max (x % 2) (y % 2) + 2 * bit_or (x / 2) (y / 2)
bit_or_step zero y = simp bit_or-bitwise (omega arith)
bit_or_step (suc x) y =
    simp bit_or-bitwise
      (omega (arith, rounds_agree (λ t. t) max x (suc x / 2) _ (y / 2) (omega arith) (le_refl _)))

-- Inductions that halve: `bound` is any number above the first argument.
bit_or-zero_below : (bound a : ℕ) → a < bound → bit_or a 0 ≡ a
bit_or-zero_below zero a h = elim h [ ]
bit_or-zero_below (suc bound) zero h = refl
bit_or-zero_below (suc bound) (suc a) h =
    omega (arith, bit_or_step (suc a) 0, bit_or-zero_below bound (suc a / 2) (omega arith))

bit_and-zero_below : (bound a : ℕ) → a < bound → bit_and a 0 ≡ 0
bit_and-zero_below zero a h = elim h [ ]
bit_and-zero_below (suc bound) zero h = refl
bit_and-zero_below (suc bound) (suc a) h =
    omega (arith, bit_and_step (suc a) 0, bit_and-zero_below bound (suc a / 2) (omega arith))

pub bit_or-zero : (a : ℕ) → bit_or a 0 ≡ a
bit_or-zero a = bit_or-zero_below (suc a) a (omega arith)

pub bit_and-zero : (a : ℕ) → bit_and a 0 ≡ 0
bit_and-zero a = bit_and-zero_below (suc a) a (omega arith)

le-bit_or_below : (bound a b : ℕ) → a < bound → (a ≤ bit_or a b) × (b ≤ bit_or a b)
le-bit_or_below zero a b h = elim h [ ]
le-bit_or_below (suc bound) zero b h = omega (arith, bit_or-bitwise 0 b)
le-bit_or_below (suc bound) (suc a) b h =
    omega (arith, bit_or_step (suc a) b, le-bit_or_below bound (suc a / 2) (b / 2) (omega arith))

-- No bit is lost by `|`.
pub le-bit_or : (a b : ℕ) → (a ≤ bit_or a b) × (b ≤ bit_or a b)
le-bit_or a b = le-bit_or_below (suc a) a b (omega arith)

bit_or_comm_below : (bound a b : ℕ) → a < bound → bit_or a b ≡ bit_or b a
bit_or_comm_below zero a b h = elim h [ ]
bit_or_comm_below (suc bound) zero b h = bit_or-bitwise 0 b ∙ sym (bit_or-zero b)
bit_or_comm_below (suc bound) (suc a) b h = omega (
  arith,
  bit_or_step (suc a) b,
  bit_or_step b (suc a),
  bit_or_comm_below bound (suc a / 2) (b / 2) (omega arith),
)

pub bit_or_comm : (a b : ℕ) → bit_or a b ≡ bit_or b a
bit_or_comm a b = bit_or_comm_below (suc a) a b (omega arith)

double_pow : (q k : ℕ) → q * 2 ^ suc k ≡ q * 2 ^ k * 2
double_pow q k = omega (arith, ap (λ (t : ℕ). q * t) (pow-suc 2 k))

-- `(q << k) | r` is a sum when `r` fits in `k` bits.
pub bit_or-shift : (k q r : ℕ) → r < 2 ^ k → bit_or (q * 2 ^ k) r ≡ q * 2 ^ k + r
bit_or-shift zero q r h = ground (arith, bit_or-zero q)
bit_or-shift (suc k) q r h = ground (
  arith,
  double_pow q k,
  double_pow 1 k,
  bit_or_step (q * 2 ^ suc k) r,
  bit_or-shift k q (r / 2) (omega (arith, double_pow 1 k)),
)

-- `|` stays within `k` bits.
pub bit_or-lt : (k a b : ℕ) → a < 2 ^ k → b < 2 ^ k → bit_or a b < 2 ^ k
bit_or-lt zero zero zero ha hb = omega (arith, bit_or-zero 0)
bit_or-lt zero zero (suc b) ha hb = absurd (omega arith)
bit_or-lt zero (suc a) b ha hb = absurd (omega arith)
bit_or-lt (suc k) a b ha hb = omega (
  arith,
  double_pow 1 k,
  bit_or_step a b,
  bit_or-lt k (a / 2) (b / 2) (omega (arith, double_pow 1 k)) (omega (arith, double_pow 1 k)),
)

-- A mask whose low `k` bits are clear.
pub bit_and-shift : (k a m : ℕ) → bit_and a (m * 2 ^ k) ≡ bit_and (a / 2 ^ k) m * 2 ^ k
bit_and-shift zero a m = ground (arith, mul-one m, div-one a)
bit_and-shift (suc k) a m = ground (
  arith,
  double_pow m k,
  double_pow 1 k,
  double_pow (bit_and (a / 2 ^ suc k) m) k,
  div-div-eq-div-mul a 2 (2 ^ k),
  bit_and_step a (m * 2 ^ suc k),
  bit_and-shift k (a / 2) m,
)

mask_fields : (k q r : ℕ) → r < 2 ^ k → bit_and (q * 2 ^ k + r) (2 ^ k - 1) ≡ r
mask_fields zero q r h = rw bit_and-zero (omega arith)
mask_fields (suc k) q r h = ground (
  arith,
  double_pow q k,
  double_pow 1 k,
  one-le-pow k 2,
  bit_and_step (q * 2 ^ suc k + r) (2 ^ suc k - 1),
  mask_fields k q (r / 2) (omega (arith, double_pow 1 k)),
)

-- A mask of `k` low bits is the remainder by `2 ^ k`.
pub bit_and-mask : (k a : ℕ) → bit_and a (2 ^ k - 1) ≡ a % 2 ^ k
bit_and-mask k a = ground (arith, one-le-pow k 2, mask_fields k (a / 2 ^ k) (a % 2 ^ k))

-- A test of every value below a bound, by evaluation.
unfoldable pub all_below : ℕ → (ℕ → Bool) → Bool
all_below zero test = true
all_below (suc bound) test = test bound && all_below bound test

pub all_below_sound :
    (bound : ℕ) (test : ℕ → Bool) (v : ℕ) → v < bound → all_below bound test ≡ true → test v ≡ true
unfolding all_below
all_below_sound zero test v inside passed = elim inside [ ]
all_below_sound (suc bound) test v inside passed = ground (arith, all_below_sound bound test v)
