-- ===== src/Runs/Base64.antt =====
-- Runs of the base64 filter: the cases of the unit test in libbitpunch/src/filters/base64.c.
use Prim.Native.String.{String}
use Prim.Native.Char.{code}
use bitpunch.Base.{ℕ, ◌+◌, ◌*◌, ◌%◌, ◌≤◌, ◌≡◌, refl, arith, List, [], ◌∷◌, All, none, some}
use bitpunch.Base.Words.{IsByte}
use bitpunch.Filters.Base64.{bits, has_bad_bits, byte_at, quad2, quad3, quad4, base64_decode}
use bitpunch.Filters.Base64.Reference.{encode}
use bitpunch.Filters.Base64.RoundTrip.{base64_decode-encode}
use bitpunch.Filters.Base64.Accepts.{
  well_formed, is_some, base64_decode_accepts, base64_decode_size,
}

abbrev codes : String → List ℕ
codes String.[] = []
codes (String.◌∷◌ c s) = code c ∷ codes s

decode_one : base64_decode (codes "Wg==") ≡ some (codes "Z")
unfolding base64_decode bits has_bad_bits byte_at quad2 quad3 quad4
decode_one = refl

decode_five : base64_decode (codes "WlpaWlo=") ≡ some (codes "ZZZZZ")
unfolding base64_decode bits has_bad_bits byte_at quad2 quad3 quad4
decode_five = refl

decode_bad : (base64_decode (codes "Wg= ") ≡ none) × (base64_decode (codes "Wg=") ≡ none)
unfolding base64_decode bits has_bad_bits byte_at quad2 quad3 quad4
decode_bad = (refl, refl)

base64_decode-encode_example :
    base64_decode (encode (1 ∷ 2 ∷ 255 ∷ 4 ∷ [])) ≡ some (1 ∷ 2 ∷ 255 ∷ 4 ∷ [])
base64_decode-encode_example = base64_decode-encode (1 ∷ 2 ∷ 255 ∷ 4 ∷ []) (omega arith)

base64_decode_accepts_example :
    is_some (base64_decode (codes "WlpaWg==")) ≡ well_formed (codes "WlpaWg==")
base64_decode_accepts_example = base64_decode_accepts (codes "WlpaWg==") (omega arith)

base64_decode_size_example :
    All IsByte (codes "ZZZZZ") × (8 % 4 ≡ 0) × (4 * 5 ≤ 3 * 8) × (3 * 8 ≤ 4 * 5 + 8)
base64_decode_size_example = base64_decode_size (codes "WlpaWlo=") (codes "ZZZZZ") decode_five
