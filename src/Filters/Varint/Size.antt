-- ===== src/Filters/Varint/Size.antt =====
-- The extent of a number, and numbers as a LEB128 encoder writes them.
use bitpunch.Base.{ℕ, zero, suc, ◌+◌, ◌*◌, ◌/◌, ◌%◌, ◌^◌, ◌≤◌, ◌<◌, ◌≡◌, refl, ap, ◌∙◌, arith}
use bitpunch.Base.{
  List, [], ◌∷◌, ◌++◌, take, All, All-append, ltb, if◌then◌else◌, ◌↔◌, inl, inr, Bool-cases,
}
use bitpunch.Base.{bit_or, bit_and}
use bitpunch.Base.Words.{IsByte, IsU64, to_i64}
use bitpunch.Base.Machine.{Machine, shl64}
use bitpunch.Status.{ok}
use bitpunch.Filters.Varint.{
  size_loop, compute_item_size__varint, little_loop, varint_read__little_endian, big_loop,
  varint_read__big_endian,
}
use bitpunch.Filters.Varint.Value.{
  is_last_lem, size_loop-gt, little_value, varint_read__little_endian-value,
}

-- A number of `n` bytes at the front: the top bit is set on all of them but the last.
abbrev pub IsNumber : ℕ → List ℕ → Type 0
IsNumber zero buf = ⊥
IsNumber (suc n) [] = ⊥
IsNumber (suc zero) (b ∷ rest) = b < 128
IsNumber (suc (suc n)) (b ∷ rest) = (128 ≤ b) × IsNumber (suc n) rest

size_loop_iff :
    (buf : List ℕ) (j n : ℕ) → All IsByte buf → (size_loop buf j ≡ ok (j + n)) ↔ IsNumber n buf
unfolding size_loop
size_loop_iff [] j zero bytes = (λ h. cc, λ h. absurd h)
size_loop_iff [] j (suc n) bytes = (λ h. cc, λ h. absurd h)
size_loop_iff (b ∷ rest) j zero (hb, bytes) =
    ground (arith, is_last_lem b hb, size_loop-gt rest (j + 1) (j + 0))
size_loop_iff (b ∷ rest) j (suc zero) (hb, bytes) =
    ground (arith, is_last_lem b hb, size_loop-gt rest (j + 1) (j + 1))
size_loop_iff (b ∷ rest) j (suc (suc n)) (hb, bytes) =
    ground (arith, is_last_lem b hb, size_loop_iff rest (j + 1) (suc n) bytes)

-- The computed size is `n` exactly if the buffer begins with a number of `n` bytes.
pub compute_item_size__varint_iff :
    (buf : List ℕ) (n : ℕ)
    → All IsByte buf
    → (compute_item_size__varint buf ≡ ok n) ↔ IsNumber n buf
unfolding compute_item_size__varint
compute_item_size__varint_iff buf n bytes = ground (arith, size_loop_iff buf 0 n bytes)

-- The loops look at no byte behind the number.
size_loop-take :
    (buf : List ℕ) (j n : ℕ) → size_loop buf j ≡ ok (j + n) → size_loop (take n buf) j ≡ ok (j + n)
unfolding size_loop
size_loop-take [] j zero h = h
size_loop-take [] j (suc n) h = h
size_loop-take (b ∷ rest) j zero h = ground (arith, size_loop-gt rest (j + 1) (j + 0))
size_loop-take (b ∷ rest) j (suc n) h = ground (arith, size_loop-take rest (j + 1) n)

little_loop-take :
    (m : Machine) (buf : List ℕ) (j n s raw : ℕ)
    → size_loop buf j ≡ ok (j + n)
    → little_loop m (take n buf) s raw ≡ little_loop m buf s raw
unfolding size_loop little_loop
little_loop-take m [] j zero s raw h = refl
little_loop-take m [] j (suc n) s raw h = refl
little_loop-take m (b ∷ rest) j zero s raw h = ground (arith, size_loop-gt rest (j + 1) (j + 0))
little_loop-take m (b ∷ rest) j (suc n) s raw h =
    ground
      (arith, little_loop-take m rest (j + 1) n (s + 7) (bit_or raw (shl64 m (bit_and b 0x7f) s)))

big_loop-take :
    (buf : List ℕ) (j n raw : ℕ)
    → size_loop buf j ≡ ok (j + n)
    → big_loop (take n buf) raw ≡ big_loop buf raw
unfolding size_loop big_loop
big_loop-take [] j zero raw h = refl
big_loop-take [] j (suc n) raw h = refl
big_loop-take (b ∷ rest) j zero raw h = ground (arith, size_loop-gt rest (j + 1) (j + 0))
big_loop-take (b ∷ rest) j (suc n) raw h =
    ground (arith, big_loop-take rest (j + 1) n (bit_or (raw * 2 ^ 7 % 2 ^ 64) (bit_and b 0x7f)))

-- The item that the computed size cuts off has that size itself, and both readers return for it
-- what they return for the whole buffer.
pub varint_item :
    (m : Machine) (buf : List ℕ) (n : ℕ)
    → compute_item_size__varint buf ≡ ok n
    → (compute_item_size__varint (take n buf) ≡ ok n)
      × (varint_read__little_endian m (take n buf) ≡ varint_read__little_endian m buf)
      × (varint_read__big_endian (take n buf) ≡ varint_read__big_endian buf)
unfolding compute_item_size__varint varint_read__little_endian varint_read__big_endian
varint_item m buf n h =
    ground (arith, size_loop-take buf 0 n, little_loop-take m buf 0 n 0 0, big_loop-take buf 0 n 0)

-- LEB128 of `v`, in at most `k + 1` groups.
unfoldable pub leb128 : ℕ → ℕ → List ℕ
leb128 zero v = v ∷ []
leb128 (suc k) v =
    let rest = leb128 k (v / 128) in if ltb v 128 then v ∷ [] else (v % 128 + 128) ∷ rest

leb128-IsNumber :
    (k v : ℕ) (rest : List ℕ)
    → v < 128 ^ suc k
    → (n : ℕ) × IsNumber (suc n) (leb128 k v ++ rest)
      × (n ≤ k)
      × (little_value (leb128 k v ++ rest) ≡ v)
unfolding leb128 little_value
leb128-IsNumber zero v rest h = (0, omega arith, omega arith, ground arith)
leb128-IsNumber (suc k) v rest h = elim (Bool-cases (ltb v 128)) [
  | inl small ↦ (0, ground arith, omega arith, ground arith)
  | inr large ↦
      let (n, number, bound, value) = leb128-IsNumber k (v / 128) rest (omega arith) in
      (suc n, ground arith, omega arith, ground arith)
]

leb128-IsByte : (k v : ℕ) → v < 128 ^ suc k → All IsByte (leb128 k v)
unfolding leb128
leb128-IsByte zero v h = omega arith
leb128-IsByte (suc k) v h = ground (arith, leb128-IsByte k (v / 128) (omega arith))

-- The little-endian reader returns the 64-bit number that was written, whatever follows it in the
-- buffer.
pub varint_read__little_endian-leb128 :
    (m : Machine) (v : ℕ) (rest : List ℕ)
    → IsU64 v
    → All IsByte rest
    → varint_read__little_endian m (leb128 9 v ++ rest) ≡ ok (to_i64 v)
varint_read__little_endian-leb128 m v rest h bytes =
    let (n, number, bound, value) = leb128-IsNumber 9 v rest (omega arith) in
    let all = All-append IsByte (leb128 9 v) rest (leb128-IsByte 9 v (omega arith)) bytes in
    varint_read__little_endian-value m (leb128 9 v ++ rest) (suc n) all
      ((compute_item_size__varint_iff (leb128 9 v ++ rest) (suc n) all).1 number) (omega arith)
    ∙ ap (λ (w : ℕ). ok (to_i64 w)) (omega arith)
