-- ===== src/Filters/Base64/Accepts.antt =====
-- Which inputs `base64_decode` accepts, and the size of what it returns.
use bitpunch.Base.{
  ℕ, zero, suc, ◌+◌, ◌-◌, ◌*◌, ◌/◌, ◌%◌, ◌^◌, ◌≤◌, ◌<◌, ◌≡◌, ◌≢◌, refl, ◌∙◌, ◌↔◌, ◌⊎◌, inl, inr,
  arith,
}
use bitpunch.Base.{List, [], ◌∷◌, ◌++◌, length, length-append, All, All-append}
use bitpunch.Base.{Option, none, some, Bool, true, false, ◌&&◌, ◌||◌, ◌==◌, ==_iff, Bool-cases}
use bitpunch.Base.Words.{IsByte}
use bitpunch.Filters.Base64.{byte_at, quad2, quad3, quad4}
use bitpunch.Filters.Base64.{
  decode_last, decode_quads, base64_decode, base64_read, decoded_buffer_max_size,
  decoded_max_length,
}
use bitpunch.Base.Bits.{bit_and-shift, bit_and-mask}
use bitpunch.Status.{ok}
use bitpunch.Filters.Base64.Reference.{is_symbol}
use bitpunch.Filters.Base64.Symbols.{quad2_bad, quad3_bad, quad4_bad, byte_at-IsByte}
use bitpunch.Filters.Base64.RoundTrip.{base64_decode_groups}

-- Groups of four characters of the alphabet, of which the last may end in one or two '='.
unfoldable pub well_formed : List ℕ → Bool
well_formed [] = true
well_formed (a ∷ b ∷ c ∷ d ∷ []) =
    is_symbol a
    && is_symbol b
    && ((c == b'=' && d == b'=') || (is_symbol c && (d == b'=' || is_symbol d)))
well_formed (a ∷ b ∷ c ∷ d ∷ e ∷ rest) =
    is_symbol a && is_symbol b && is_symbol c && is_symbol d && well_formed (e ∷ rest)
well_formed _ = false

abbrev pub is_some {ℓ} : {A : Type ℓ} → Option A → Bool
is_some none = false
is_some (some a) = true

pad_not_symbol : is_symbol b'=' ≡ false
unfolding is_symbol
pad_not_symbol = refl

last_accepts :
    (a b c d : ℕ) (out : List ℕ)
    → All IsByte (a ∷ b ∷ c ∷ d ∷ [])
    → is_some (decode_last (a ∷ b ∷ c ∷ d ∷ []) out) ≡ well_formed (a ∷ b ∷ c ∷ d ∷ [])
unfolding decode_last well_formed
last_accepts a b c d out (ha, (hb, (hc, (hd, _)))) = ground (
  arith,
  pad_not_symbol,
  quad2_bad a b ha hb,
  quad3_bad a b c ha hb hc,
  quad4_bad a b c d ha hb hc hd,
  ==_iff c b'=',
  ==_iff d b'=',
)

abbrev three_bytes : ℕ → List ℕ
three_bytes quad = byte_at quad 16 ∷ byte_at quad 8 ∷ byte_at quad 0 ∷ []

quads_accept :
    (n : ℕ) (s out : List ℕ)
    → length s ≡ 4 * suc n
    → All IsByte s
    → is_some (decode_quads n s out) ≡ well_formed s
unfolding decode_quads well_formed
quads_accept zero (a ∷ b ∷ c ∷ d ∷ []) out h bytes = last_accepts a b c d out bytes
quads_accept (suc n) (a ∷ b ∷ c ∷ d ∷ e ∷ rest) out h (ha, (hb, (hc, (hd, bytes)))) = ground (
  arith,
  quad4_bad a b c d ha hb hc hd,
  quads_accept n (e ∷ rest) (out ++ three_bytes (quad4 a b c d)) (omega arith) bytes,
)
quads_accept n s out h bytes = absurd (omega arith)

well_formed-length : (s : List ℕ) → length s % 4 ≢ 0 → well_formed s ≡ false
unfolding well_formed
well_formed-length [] h = absurd (h refl)
well_formed-length (a ∷ []) h = refl
well_formed-length (a ∷ b ∷ []) h = refl
well_formed-length (a ∷ b ∷ c ∷ []) h = refl
well_formed-length (a ∷ b ∷ c ∷ d ∷ []) h = absurd (h refl)
well_formed-length (a ∷ b ∷ c ∷ d ∷ e ∷ rest) h =
    ground (arith, well_formed-length (e ∷ rest) (omega arith))

length_cases : (k : ℕ) → ((k ≡ 0) ⊎ (k % 4 ≢ 0)) ⊎ ((n : ℕ) × (k ≡ 4 * suc n))
length_cases k = elim (Bool-cases (k % 4 == 0)) [
  | inl e ↦ elim (Bool-cases (k == 0)) [
    | inl z ↦ inl (inl (ground arith))
    | inr p ↦ inr (k / 4 - 1, ground arith)
  ]
  | inr e ↦ inl (inr (ground arith))
]

-- The decoder accepts a buffer of bytes exactly if it is well formed.
pub base64_decode_accepts : (s : List ℕ) → All IsByte s → is_some (base64_decode s) ≡ well_formed s
base64_decode_accepts s bytes = elim (length_cases (length s)) [
  | inl (inl e) ↦ empty s e
  | inl (inr r) ↦ rw (well_formed-length s r) (unfold base64_decode in ground arith)
  | inr (n, e) ↦ rw (base64_decode_groups s n e) (quads_accept n s [] e bytes)
]
  where
    empty : (s : List ℕ) → length s ≡ 0 → is_some (base64_decode s) ≡ well_formed s
    empty [] e = unfold base64_decode well_formed in refl
    empty (a ∷ s) e = cc

abbrev Decoded : ℕ → List ℕ → List ℕ → Type 0
Decoded n out r =
    All IsByte r × (length r ≤ length out + 3 * suc n) × (length out + 3 * n + 1 ≤ length r)

-- Appending a byte to the output.
push :
    (out : List ℕ) (q k : ℕ)
    → All IsByte out
    → All IsByte (out ++ (byte_at q k ∷ [])) × (length (out ++ (byte_at q k ∷ [])) ≡ length out + 1)
push out q k bytes =
    (All-append IsByte out _ bytes (byte_at-IsByte q k, tt), length-append out (byte_at q k ∷ []))

push_three :
    (out : List ℕ) (q : ℕ)
    → All IsByte out
    → All IsByte (out ++ three_bytes q) × (length (out ++ three_bytes q) ≡ length out + 3)
push_three out q bytes = (
  All-append IsByte out _ bytes
      (byte_at-IsByte q 16, (byte_at-IsByte q 8, (byte_at-IsByte q 0, tt))),
  length-append out (three_bytes q),
)

last-Decoded : (s out r : List ℕ) → All IsByte out → decode_last s out ≡ some r → Decoded 0 out r
unfolding decode_last
last-Decoded (a ∷ b ∷ c ∷ d ∷ []) out r bytes h = ground (
  arith,
  push out (quad2 a b) 16 bytes,
  push (out ++ (byte_at (quad2 a b) 16 ∷ [])) (quad3 a b c) 8,
  push ((out ++ (byte_at (quad2 a b) 16 ∷ [])) ++ (byte_at (quad3 a b c) 8 ∷ [])) (quad4 a b c d) 0,
)
last-Decoded s out r bytes h = cc

quads-Decoded :
    (n : ℕ) (s out r : List ℕ) → All IsByte out → decode_quads n s out ≡ some r → Decoded n out r
unfolding decode_quads
quads-Decoded zero s out r bytes h = last-Decoded s out r bytes h
quads-Decoded (suc n) (a ∷ b ∷ c ∷ d ∷ s) out r bytes h = ground (
  arith,
  push_three out (quad4 a b c d) bytes,
  quads-Decoded n s (out ++ three_bytes (quad4 a b c d)) r,
)
quads-Decoded n s out r bytes h = cc

-- What is decoded is a list of bytes, three for each group of four characters, less at most two.
pub base64_decode_size :
    (s r : List ℕ)
    → base64_decode s ≡ some r
    → All IsByte r
      × (length s % 4 ≡ 0)
      × (4 * length r ≤ 3 * length s)
      × (3 * length s ≤ 4 * length r + 8)
base64_decode_size s r h = elim (length_cases (length s)) [
  | inl (inl e) ↦ unfold base64_decode in ground arith
  | inl (inr e) ↦ unfold base64_decode in ground arith
  | inr (n, e) ↦
      let (bytes, hi, lo) = quads-Decoded n s [] r tt (rw (← base64_decode_groups s n e) h) in
      (bytes, omega arith, omega arith, omega arith)
]

-- The mask rounds up to a multiple of four.
decoded_max_length_lem : (n : ℕ) → n < 2 ^ 63 → decoded_max_length n ≡ (n + 3) / 4 * 4
decoded_max_length_lem n h =
    bit_and-shift 2 ((n + 3) % 2 ^ 64) (2 ^ 62 - 1)
    ∙ omega (arith, bit_and-mask 62 ((n + 3) % 2 ^ 64 / 4))

-- The filter returns `r` exactly if the buffer has at most 100 MiB and `base64_decode` returns `r`.
base64_read_accepts :
    (s : List ℕ)
    → length s < 2 ^ 63
    → (r : List ℕ)
    → (base64_read s ≡ ok r) ↔ (length s ≤ decoded_buffer_max_size) × (base64_decode s ≡ some r)
unfolding base64_read
base64_read_accepts s h r = ground (arith, decoded_max_length_lem (length s) h)
