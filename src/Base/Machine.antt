-- ===== src/Base/Machine.antt =====
-- What the code takes from the compiler and the processor: parameters of the model.
use Prim.Native.Nat.{ℕ, ◌+◌, ◌*◌, ◌%◌, ◌^◌}
use mathlib.Core.Path.{◌≡◌}
use mathlib.Core.Logic.{◌⊎◌}
use mathlib.Core.Bool.{Bool}
use mathlib.Core.List.{List, [], ◌∷◌}
use bitpunch.Base.Tests.{ltb, if◌then◌else◌}
use bitpunch.Base.Lists.{length, All}
use bitpunch.Base.Words.{IsByte, IsU64}

-- The number that a sequence of bytes stands for, least and most significant byte first.
unfoldable pub le_value : List ℕ → ℕ
le_value [] = 0
le_value (b ∷ bs) = b + 256 * le_value bs

unfoldable pub be_value_from : ℕ → List ℕ → ℕ
be_value_from acc [] = acc
be_value_from acc (b ∷ bs) = be_value_from (acc * 256 + b) bs

unfoldable pub be_value : List ℕ → ℕ
unfolding be_value_from
be_value bs = be_value_from 0 bs

abbrev pub IsWordSize : ℕ → Type 0
IsWordSize n = (n ≡ 2) ⊎ (n ≡ 4) ⊎ (n ≡ 8)

pub record Machine : Type 0 where
  -- the result of a 64-bit shift by a count outside 0 .. 63, which C leaves undefined
  pub wide_shl : ℕ → ℕ → ℕ
  pub wide_shr : ℕ → ℕ → ℕ
  pub wide_shl-lt : (x k : ℕ) → IsU64 (wide_shl x k)
  pub wide_shr-lt : (x k : ℕ) → IsU64 (wide_shr x k)
  -- is_little_endian()
  pub little_endian : Bool
  -- `*(uintN_t *)buffer`, and be16toh() to be64toh() and le16toh() to le64toh() of <endian.h>
  pub load : List ℕ → ℕ
  pub be_to_host : ℕ → ℕ → ℕ
  pub le_to_host : ℕ → ℕ → ℕ
  pub load_byte : (b : ℕ) → load (b ∷ []) ≡ b
  pub be_load :
      (bs : List ℕ)
      → All IsByte bs
      → IsWordSize (length bs)
      → be_to_host (length bs) (load bs) ≡ be_value bs
  pub le_load :
      (bs : List ℕ)
      → All IsByte bs
      → IsWordSize (length bs)
      → le_to_host (length bs) (load bs) ≡ le_value bs

-- `x << k` on a `uint64_t`.
unfoldable pub shl64 : Machine → ℕ → ℕ → ℕ
shl64 m x k = if ltb k 64 then x * 2 ^ k % 2 ^ 64 else m.wide_shl x k
