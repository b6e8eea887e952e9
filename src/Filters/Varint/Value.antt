-- ===== src/Filters/Varint/Value.antt =====
-- The numbers that the two readers of varint.c return.
use bitpunch.Base.{ℕ, ◌+◌, ◌*◌, ◌/◌, ◌%◌, ◌^◌, ◌≤◌, ◌<◌, ◌≡◌, refl, ap, ◌∙◌, arith}
use bitpunch.Base.{
  List, [], ◌∷◌, All, true, false, ltb, leb, leb→le, Bool-cases, if◌then◌else◌, inl, inr,
}
use bitpunch.Base.{bit_and, bit_or}
use bitpunch.Base.Bits.{bit_and-mask, bit_and-shift, bit_or-shift, bit_or_comm}
use bitpunch.Base.Words.{IsByte, to_i64}
use bitpunch.Base.Machine.{Machine, shl64}
use bitpunch.Status.{ok}
use bitpunch.Filters.Varint.{
  is_last, size_loop, compute_item_size__varint, little_loop, varint_read__little_endian, big_loop,
  varint_read__big_endian,
}
use native.Mathlib.Nat.{pow-le-pow_right, add_assoc}
use native.Mathlib.Numerals.{towards_suc}

-- The groups of the first number of a buffer, up to and with its last byte, as a number: lowest
-- group first, and highest group first.
unfoldable pub little_value : List ℕ → ℕ
little_value [] = 0
little_value (b ∷ rest) = if ltb b 128 then b else b % 128 + 128 * little_value rest

unfoldable pub big_value_from : ℕ → List ℕ → ℕ
big_value_from acc [] = acc
big_value_from acc (b ∷ rest) =
    if ltb b 128 then acc * 128 + b else big_value_from (acc * 128 + b % 128) rest

pub is_last_lem : (b : ℕ) → IsByte b → is_last b ≡ ltb b 128
unfolding is_last
is_last_lem b h = ground (arith, bit_and-shift 7 b 1, bit_and-mask 1 (b / 128))

pub group_lem : (b : ℕ) → bit_and b 0x7f ≡ b % 128
group_lem b = bit_and-mask 7 b

pow_add_seven : (s : ℕ) → 2 ^ (s + 7) ≡ 128 * 2 ^ s
pow_add_seven s = simp towards_suc (omega arith)

group_fits : (s g : ℕ) → g < 128 → s ≤ 56 → g * 2 ^ s < 2 ^ 64
group_fits s g hg hs =
    let small : 2 ^ s ≤ 2 ^ 56 = pow-le-pow_right {n = 2} (omega arith) hs in
    let product : g * 2 ^ s ≤ 127 * 2 ^ s = grind arith in omega arith

-- The bits below `s` are taken, and the group goes above them; at `s = 63` all but its lowest bit
-- fall out of the word.
or_group :
    (m : Machine) (s raw g : ℕ)
    → raw < 2 ^ s
    → g < 128
    → s ≤ 56
    → (bit_or raw (shl64 m g s) ≡ raw + g * 2 ^ s) × (raw + g * 2 ^ s < 2 ^ (s + 7))
unfolding shl64
or_group m s raw g hr hg hs =
    let product : g * 2 ^ s ≤ 127 * 2 ^ s = grind arith in
    ground (
      arith,
      product,
      group_fits s g hg hs,
      bit_or_comm raw (g * 2 ^ s),
      bit_or-shift s g raw hr,
      pow_add_seven s,
    )

or_top_group :
    (m : Machine) (raw g : ℕ)
    → raw < 2 ^ 63
    → bit_or raw (shl64 m g 63) ≡ (raw + g * 2 ^ 63) % 2 ^ 64
unfolding shl64
or_top_group m raw g hr =
    ground (arith, bit_or_comm raw (g % 2 * 2 ^ 63), bit_or-shift 63 (g % 2) raw hr)

pub size_loop-gt : (buf : List ℕ) (j n : ℕ) → size_loop buf j ≡ ok n → j < n
unfolding size_loop
size_loop-gt [] j n h = cc
size_loop-gt (b ∷ rest) j n h = ground (arith, size_loop-gt rest (j + 1) n)

shift_groups : (b s v : ℕ) → (b + 128 * v) * 2 ^ s ≡ b * 2 ^ s + v * 2 ^ (s + 7)
shift_groups b s v = omega (arith, ap (λ (t : ℕ). v * t) (pow_add_seven s))

-- One group at any of the ten shifts 0, 7, …, 63.
or_any_group :
    (m : Machine) (j s raw b : ℕ)
    → s ≡ 7 * j
    → j ≤ 9
    → raw < 2 ^ s
    → bit_or raw (shl64 m (bit_and b 0x7f) s) ≡ (raw + b % 128 * 2 ^ s) % 2 ^ 64
or_any_group m j s raw b hs hj hr = elim (Bool-cases (leb s 56)) [
  | inl low ↦
      let small : s ≤ 56 = leb→le s 56 low in
      let (e, bound) = or_group m s raw (b % 128) hr (omega arith) small in
      let top : 2 ^ (s + 7) ≤ 2 ^ 63 =
        pow-le-pow_right {n = 2} (omega arith) {i = s + 7} {j = 63} (omega arith) in
      rw group_lem (e ∙ omega arith)
  | inr top ↦
      let e : s ≡ 63 = ground arith in rw (group_lem, e) (or_top_group m raw (b % 128) (rw e at hr))
]

little_step_last :
    (m : Machine) (b : ℕ) (rest : List ℕ) (j s raw : ℕ)
    → IsByte b
    → ltb b 128 ≡ true
    → s ≡ 7 * j
    → j ≤ 9
    → raw < 2 ^ s
    → little_loop m (b ∷ rest) s raw ≡ ok (to_i64 ((raw + b * 2 ^ s) % 2 ^ 64))
unfolding little_loop
little_step_last m b rest j s raw hb last hs hj hr =
    let same : b % 128 ≡ b = ground arith in
    rw (is_last_lem b hb, last, or_any_group m j s raw b hs hj hr, same) refl

little_step_more :
    (m : Machine) (b : ℕ) (rest : List ℕ) (j s raw : ℕ)
    → IsByte b
    → ltb b 128 ≡ false
    → s ≡ 7 * j
    → j ≤ 8
    → raw < 2 ^ s
    → little_loop m (b ∷ rest) s raw ≡ little_loop m rest (s + 7) (raw + b % 128 * 2 ^ s)
unfolding little_loop
little_step_more m b rest j s raw hb more hs hj hr =
    rw
      (
        is_last_lem b hb,
        more,
        group_lem b,
        (or_group m s raw (b % 128) hr (omega arith) (omega arith)).0,
      )
      refl

size_step_more :
    (b : ℕ) (rest : List ℕ) (j : ℕ)
    → IsByte b
    → ltb b 128 ≡ false
    → size_loop (b ∷ rest) j ≡ size_loop rest (j + 1)
unfolding size_loop
size_step_more b rest j hb more = rw (is_last_lem b hb, more) refl

-- The bits of `raw` are the groups read so far, and `s` is their number of bits.
little_loop-value :
    (m : Machine) (buf : List ℕ) (j n s raw : ℕ)
    → All IsByte buf
    → s ≡ 7 * j
    → j ≤ 9
    → raw < 2 ^ s
    → size_loop buf j ≡ ok n
    → n ≤ 10
    → little_loop m buf s raw ≡ ok (to_i64 ((raw + little_value buf * 2 ^ s) % 2 ^ 64))
unfolding little_value
little_loop-value m [] j n s raw bytes hs hj hr h hn = unfold size_loop in cc
little_loop-value m (b ∷ rest) j n s raw (hb, bytes) hs hj hr h hn = elim (Bool-cases (ltb b 128)) [
  | inl last ↦ rw last (little_step_last m b rest j s raw hb last hs hj hr)
  | inr more ↦
      let h' = rw (size_step_more b rest j hb more) at h in
      let far : j + 1 < n = size_loop-gt rest (j + 1) n h' in
      let (_, fits) = or_group m s raw (b % 128) hr (omega arith) (omega arith) in
      rw (more, shift_groups (b % 128) s (little_value rest), ← add_assoc)
        (little_step_more m b rest j s raw hb more hs (omega arith) hr
          ∙ little_loop-value m rest (j + 1) n (s + 7) (raw + b % 128 * 2 ^ s) bytes (omega arith)
              (omega arith) fits h' hn)
]

-- A number of at most ten bytes is read as the sum of its groups, lowest first, cut to 64 bits.
pub varint_read__little_endian-value :
    (m : Machine) (buf : List ℕ) (n : ℕ)
    → All IsByte buf
    → compute_item_size__varint buf ≡ ok n
    → n ≤ 10
    → varint_read__little_endian m buf ≡ ok (to_i64 (little_value buf % 2 ^ 64))
unfolding varint_read__little_endian compute_item_size__varint
varint_read__little_endian-value m buf n bytes h hn =
    little_loop-value m buf 0 n 0 0 bytes refl (omega arith) (omega arith) h hn
    ∙ ap (λ (v : ℕ). ok (to_i64 (v % 2 ^ 64))) (omega arith)

-- `raw` is what has been read so far, cut to 64 bits.
big_loop-value :
    (buf : List ℕ) (j n acc : ℕ)
    → All IsByte buf
    → size_loop buf j ≡ ok n
    → big_loop buf (acc % 2 ^ 64) ≡ ok (to_i64 (big_value_from acc buf % 2 ^ 64))
unfolding big_loop big_value_from
big_loop-value [] j n acc bytes h = unfold size_loop in cc
big_loop-value (b ∷ rest) j n acc (hb, bytes) h =
    let shifted : bit_or (acc % 2 ^ 64 * 2 ^ 7 % 2 ^ 64) (b % 128)
        ≡ (acc * 128 + b % 128) % 2 ^ 64 =
      ground (arith, bit_or-shift 7 (acc % 2 ^ 57) (b % 128)) in
    elim (Bool-cases (ltb b 128)) [
      | inl last ↦
          let same : b % 128 ≡ b = ground arith in
          rw (is_last_lem b hb, last, group_lem b, shifted, same) refl
      | inr more ↦
          rw (is_last_lem b hb, more, group_lem b, shifted)
            (big_loop-value rest (j + 1) n (acc * 128 + b % 128) bytes
              (rw (size_step_more b rest j hb more) at h))
    ]

-- A number of any length is read as the sum of its groups, highest first, cut to 64 bits.
pub varint_read__big_endian-value :
    (buf : List ℕ) (n : ℕ)
    → All IsByte buf
    → compute_item_size__varint buf ≡ ok n
    → varint_read__big_endian buf ≡ ok (to_i64 (big_value_from 0 buf % 2 ^ 64))
unfolding varint_read__big_endian compute_item_size__varint
varint_read__big_endian-value buf n bytes h = big_loop-value buf 0 n 0 bytes h
