-- ===== src/Filters/Base64/RoundTrip.antt =====
-- Decoding what the reference encoder wrote.
use bitpunch.Base.{ℕ, suc, ◌+◌, ◌-◌, ◌*◌, ◌/◌, ◌%◌, ◌^◌, ◌<◌, ◌≡◌, refl, ap, ◌∙◌, arith}
use bitpunch.Base.{List, [], ◌∷◌, ◌++◌, length, All, some, ◌≢◌, false}
use bitpunch.Base.Words.{IsByte}
use bitpunch.Filters.Base64.{has_bad_bits, byte_at, quad2, quad3, quad4}
use bitpunch.Filters.Base64.{decode_last, decode_quads, base64_decode}
use bitpunch.Filters.Base64.Reference.{symbol, encode}
use bitpunch.Filters.Base64.Symbols.{
  bits-symbol, symbol_not_pad, quad2_fields, quad3_fields, quad4_fields, has_bad_bits_lem,
  byte_at_lem,
}
use mathlib.Core.List.{append_assoc}

abbrev fourth : ℕ → ℕ → ℕ → ℕ → ℕ
fourth w x y z = w * 2 ^ 18 + x * 2 ^ 12 + y * 2 ^ 6 + z

good_quad2 : (w x : ℕ) → w < 64 → x < 64 → quad2 (symbol w) (symbol x) ≡ fourth w x 0 0
good_quad2 w x hw hx =
    ground (arith, bits-symbol w hw, bits-symbol x hx, quad2_fields (symbol w) (symbol x))

good_quad3 :
    (w x y : ℕ) → w < 64 → x < 64 → y < 64 → quad3 (symbol w) (symbol x) (symbol y) ≡ fourth w x y 0
good_quad3 w x y hw hx hy = ground (
  arith,
  bits-symbol w hw,
  bits-symbol x hx,
  bits-symbol y hy,
  quad3_fields (symbol w) (symbol x) (symbol y),
)

good_quad4 :
    (w x y z : ℕ)
    → w < 64
    → x < 64
    → y < 64
    → z < 64
    → quad4 (symbol w) (symbol x) (symbol y) (symbol z) ≡ fourth w x y z
good_quad4 w x y z hw hx hy hz = ground (
  arith,
  bits-symbol w hw,
  bits-symbol x hx,
  bits-symbol y hy,
  bits-symbol z hz,
  quad4_fields (symbol w) (symbol x) (symbol y) (symbol z),
)

good_quad : (q : ℕ) → q < 2 ^ 24 → has_bad_bits q ≡ false
good_quad q h = ground (arith, has_bad_bits_lem q)

-- The three bytes come back from their four characters.
module _ (x y z : ℕ) (hx : IsByte x) (hy : IsByte y) (hz : IsByte z) where
  abbrev three : ℕ
  three =
      quad4 (symbol (x / 4)) (symbol (x % 4 * 16 + y / 16)) (symbol (y % 16 * 4 + z / 64))
        (symbol (z % 64))

  three-eq : three ≡ x * 2 ^ 16 + y * 2 ^ 8 + z
  three-eq = omega (
    arith,
    good_quad4 (x / 4) (x % 4 * 16 + y / 16) (y % 16 * 4 + z / 64) (z % 64) (omega arith)
        (omega arith) (omega arith) (omega arith),
  )

  three_bytes :
      (byte_at three 16 ≡ x)
      × (byte_at three 8 ≡ y)
      × (byte_at three 0 ≡ z)
      × (has_bad_bits three ≡ false)
  three_bytes = (
    byte_at_lem three 16 ∙ omega (arith, three-eq),
    byte_at_lem three 8 ∙ omega (arith, three-eq),
    byte_at_lem three 0 ∙ omega (arith, three-eq),
    good_quad three (omega (arith, three-eq)),
  )

  one_group :
      (n : ℕ) (rest out : List ℕ)
      → decode_quads
          (suc n)
          (symbol (x / 4)
            ∷ symbol (x % 4 * 16 + y / 16)
            ∷ symbol (y % 16 * 4 + z / 64)
            ∷ symbol (z % 64)
            ∷ rest)
          out
        ≡ decode_quads n rest (out ++ (x ∷ y ∷ z ∷ []))
  unfolding decode_quads
  one_group n rest out = ground (arith, three_bytes)

  last_three :
      (out : List ℕ) → decode_last (encode (x ∷ y ∷ z ∷ [])) out ≡ some (out ++ (x ∷ y ∷ z ∷ []))
  unfolding decode_last encode
  last_three out = ground (
    arith,
    three_bytes,
    symbol_not_pad (y % 16 * 4 + z / 64),
    symbol_not_pad (z % 64),
    byte_at_lem (quad2 (symbol (x / 4)) (symbol (x % 4 * 16 + y / 16))) 16,
    good_quad2 (x / 4) (x % 4 * 16 + y / 16),
    byte_at_lem
        (quad3 (symbol (x / 4)) (symbol (x % 4 * 16 + y / 16)) (symbol (y % 16 * 4 + z / 64))) 8,
    good_quad3 (x / 4) (x % 4 * 16 + y / 16) (y % 16 * 4 + z / 64),
    append_assoc out (x ∷ []) (y ∷ []),
    append_assoc out (x ∷ y ∷ []) (z ∷ []),
  )

last_two :
    (x y : ℕ) (out : List ℕ)
    → IsByte x
    → IsByte y
    → decode_last (encode (x ∷ y ∷ [])) out ≡ some (out ++ (x ∷ y ∷ []))
unfolding decode_last encode
last_two x y out hx hy = ground (
  arith,
  symbol_not_pad (y % 16 * 4),
  byte_at_lem (quad2 (symbol (x / 4)) (symbol (x % 4 * 16 + y / 16))) 16,
  good_quad2 (x / 4) (x % 4 * 16 + y / 16),
  byte_at_lem (quad3 (symbol (x / 4)) (symbol (x % 4 * 16 + y / 16)) (symbol (y % 16 * 4))) 8,
  good_quad3 (x / 4) (x % 4 * 16 + y / 16) (y % 16 * 4),
  good_quad (quad3 (symbol (x / 4)) (symbol (x % 4 * 16 + y / 16)) (symbol (y % 16 * 4))),
  append_assoc out (x ∷ []) (y ∷ []),
)

last_one :
    (x : ℕ) (out : List ℕ) → IsByte x → decode_last (encode (x ∷ [])) out ≡ some (out ++ (x ∷ []))
unfolding decode_last encode
last_one x out hx = ground (
  arith,
  byte_at_lem (quad2 (symbol (x / 4)) (symbol (x % 4 * 16))) 16,
  good_quad2 (x / 4) (x % 4 * 16),
  good_quad (quad2 (symbol (x / 4)) (symbol (x % 4 * 16))),
)

-- The number of groups before the last one, for `n` bytes.
abbrev pub groups : List ℕ → ℕ
groups (x ∷ y ∷ z ∷ rest) = elim rest [ [] ↦ 0 | _ ∷ _ ↦ suc (groups rest) ]
groups _ = 0

pub length-encode : (bs : List ℕ) → bs ≢ [] → length (encode bs) ≡ 4 * suc (groups bs)
unfolding encode
length-encode [] h = absurd (h refl)
length-encode (x ∷ []) h = refl
length-encode (x ∷ y ∷ []) h = refl
length-encode (x ∷ y ∷ z ∷ []) h = refl
length-encode (x ∷ y ∷ z ∷ w ∷ rest) h = omega (arith, length-encode (w ∷ rest) (λ e. cc))

decode_quads-encode :
    (bs out : List ℕ)
    → All IsByte bs
    → bs ≢ []
    → decode_quads (groups bs) (encode bs) out ≡ some (out ++ bs)
unfolding encode decode_quads
decode_quads-encode [] out h ne = absurd (ne refl)
decode_quads-encode (x ∷ []) out h ne = last_one x out h.0
decode_quads-encode (x ∷ y ∷ []) out h ne = last_two x y out h.0 h.1.0
decode_quads-encode (x ∷ y ∷ z ∷ []) out (hx, (hy, (hz, _))) ne = last_three x y z hx hy hz out
decode_quads-encode (x ∷ y ∷ z ∷ w ∷ rest) out (hx, (hy, (hz, h))) ne =
    one_group x y z hx hy hz (groups (w ∷ rest)) (encode (w ∷ rest)) out
    ∙ decode_quads-encode (w ∷ rest) (out ++ (x ∷ y ∷ z ∷ [])) h (λ e. cc)
    ∙ ap some (append_assoc out (x ∷ y ∷ z ∷ []) (w ∷ rest))

-- An input of `n + 1` groups.
pub base64_decode_groups :
    (s : List ℕ) (n : ℕ) → length s ≡ 4 * suc n → base64_decode s ≡ decode_quads n s []
unfolding base64_decode
base64_decode_groups s n h = rw h (rw (quarter n, pred_quarter n) (ground arith))
  where
    quarter : (n : ℕ) → 4 * suc n % 4 ≡ 0
    quarter n = omega arith

    pred_quarter : (n : ℕ) → 4 * suc n / 4 - 1 ≡ n
    pred_quarter n = omega arith

-- Decoding gives back the bytes that the reference encoder was given.
pub base64_decode-encode : (bs : List ℕ) → All IsByte bs → base64_decode (encode bs) ≡ some bs
base64_decode-encode [] h = unfold encode base64_decode in refl
base64_decode-encode (x ∷ bs) h =
    base64_decode_groups (encode (x ∷ bs)) (groups (x ∷ bs)) (length-encode (x ∷ bs) (λ e. cc))
    ∙ decode_quads-encode (x ∷ bs) [] h (λ e. cc)
