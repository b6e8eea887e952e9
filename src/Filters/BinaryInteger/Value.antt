-- ===== src/Filters/BinaryInteger/Value.antt =====
-- What the integer filter reads, and that it reads back what was written.
use bitpunch.Base.{ℕ, zero, suc, ◌+◌, ◌-◌, ◌*◌, ◌/◌, ◌%◌, ◌^◌, ◌≤◌, ◌<◌, ◌≡◌, refl, ap, ◌∙◌, arith}
use bitpunch.Base.{List, [], ◌∷◌, ◌++◌, length, length-append, All, All-append, Bool, true, not}
use bitpunch.Base.{◌⊎◌, inl, inr, ◌≢◌}
use bitpunch.Base.Int.{ℤ, pos, negsuc, pos_part, neg_part, eqb_ℤ, eqb_ℤ_iff}
use bitpunch.Base.Words.{IsByte}
use bitpunch.Base.Machine.{Machine, le_value, be_value_from, be_value, IsWordSize}
use native.Mathlib.Nat.{pow-suc}
use bitpunch.Status.{Result, ok, err, no_item, >>=-eq-ok}
use bitpunch.Filters.Attributes.{
  Attributes, Endian, endian_big, endian_little, integer_read_endian_attribute, str2endian,
}
use bitpunch.Filters.BinaryInteger.{
  choose_order, extend, read_word, read_byte, read_sized, binary_integer_read_generic,
}

-- A byte order attribute is never left unresolved, so the assertions behind it hold.
integer_read_endian_attribute_resolved :
    (m : Machine) (attrs : Attributes) (endian : Endian)
    → integer_read_endian_attribute m attrs ≡ ok endian
    → (endian ≡ endian_big) ⊎ (endian ≡ endian_little)
unfolding integer_read_endian_attribute str2endian
integer_read_endian_attribute_resolved m attrs endian h = ground arith

abbrev pub IsSize : ℕ → Type 0
IsSize n = (n ≡ 1) ⊎ (n ≡ 2) ⊎ (n ≡ 4) ⊎ (n ≡ 8)

abbrev pub order_value : Endian → List ℕ → ℕ
order_value endian_big bs = be_value bs
order_value _ bs = le_value bs

single :
    (m : Machine) (bs : List ℕ)
    → length bs ≡ 1
    → (m.load bs ≡ be_value bs) × (m.load bs ≡ le_value bs)
unfolding be_value le_value
single m [] h = absurd (omega arith)
single m (b ∷ []) h = (m.load_byte b ∙ omega arith, m.load_byte b ∙ omega arith)
single m (b ∷ c ∷ bs) h = absurd (omega arith)

word_value :
    (m : Machine) (endian : Endian) (bs : List ℕ)
    → All IsByte bs
    → IsWordSize (length bs)
    → (endian ≡ endian_big) ⊎ (endian ≡ endian_little)
    → read_word m endian bs ≡ ok (order_value endian bs)
unfolding read_word
word_value m endian bs bytes size (inl e) = rw e (ap ok (m.be_load bs bytes size))
word_value m endian bs bytes size (inr e) = rw e (ap ok (m.le_load bs bytes size))

byte_value :
    (m : Machine) (endian : Endian) (bs : List ℕ)
    → length bs ≡ 1
    → (endian ≡ endian_big) ⊎ (endian ≡ endian_little)
    → read_byte m endian bs ≡ ok (order_value endian bs)
unfolding read_byte
byte_value m endian bs size (inl e) = rw e (ap ok (single m bs size).0)
byte_value m endian bs size (inr e) = rw e (ap ok (single m bs size).1)

read_sized-value :
    (m : Machine) (signed : Bool) (endian : Endian) (bs : List ℕ)
    → All IsByte bs
    → IsSize (length bs)
    → (endian ≡ endian_big) ⊎ (endian ≡ endian_little)
    → read_sized m signed endian bs ≡ ok (extend signed (8 * length bs) (order_value endian bs))
unfolding read_sized
read_sized-value m signed endian bs bytes (inl size) order =
    rw (size, byte_value m endian bs size order) refl
read_sized-value m signed endian bs bytes (inr size) order =
    ground (arith, word_value m endian bs bytes size order)

-- With both attributes set, a buffer of 1, 2, 4 or 8 bytes is read as the number that its bytes
-- stand for in the attribute's byte order, then reinterpreted with its own width and sign.
pub binary_integer_read_generic-value :
    (m : Machine) (attrs : Attributes) (bs : List ℕ) (signed : ℤ) (endian : Endian)
    → All IsByte bs
    → IsSize (length bs)
    → attrs.boolean "@signed" ≡ ok signed
    → integer_read_endian_attribute m attrs ≡ ok endian
    → binary_integer_read_generic m attrs bs
      ≡ ok (extend (not (eqb_ℤ signed (pos 0))) (8 * length bs) (order_value endian bs))
unfolding binary_integer_read_generic
binary_integer_read_generic-value m attrs bs signed endian bytes size hs he =
    rw (hs, he)
      (read_sized-value m _ endian bs bytes size
        (integer_read_endian_attribute_resolved m attrs endian he))

-- The bytes of a number, in the two orders.
unfoldable pub le_bytes : ℕ → ℕ → List ℕ
le_bytes zero v = []
le_bytes (suc n) v = v % 256 ∷ le_bytes n (v / 256)

unfoldable pub be_bytes : ℕ → ℕ → List ℕ
be_bytes zero v = []
be_bytes (suc n) v = be_bytes n (v / 256) ++ (v % 256 ∷ [])

abbrev pub order_bytes : Endian → ℕ → ℕ → List ℕ
order_bytes endian_big n v = be_bytes n v
order_bytes _ n v = le_bytes n v

le_bytes_facts :
    (n v : ℕ)
    → v < 256 ^ n
    → (le_value (le_bytes n v) ≡ v) × All IsByte (le_bytes n v) × (length (le_bytes n v) ≡ n)
unfolding le_value le_bytes
le_bytes_facts zero v h = omega arith
le_bytes_facts (suc n) v h = ground (arith, le_bytes_facts n (v / 256), pow-suc 256 n)

be_value_from-snoc :
    (acc : ℕ) (bs : List ℕ) (b : ℕ)
    → be_value_from acc (bs ++ (b ∷ [])) ≡ be_value_from acc bs * 256 + b
unfolding be_value_from
be_value_from-snoc acc [] b = refl
be_value_from-snoc acc (c ∷ bs) b = be_value_from-snoc (acc * 256 + c) bs b

be_bytes_facts :
    (n v : ℕ)
    → v < 256 ^ n
    → (be_value (be_bytes n v) ≡ v) × All IsByte (be_bytes n v) × (length (be_bytes n v) ≡ n)
unfolding be_value be_bytes
be_bytes_facts zero v h = omega arith
be_bytes_facts (suc n) v h =
    let (value, bytes, size) = be_bytes_facts n (v / 256) (omega (arith, pow-suc 256 n)) in
    (
      be_value_from-snoc 0 (be_bytes n (v / 256)) (v % 256) ∙ omega arith,
      All-append IsByte (be_bytes n (v / 256)) _ bytes (omega arith, tt),
      length-append (be_bytes n (v / 256)) _ ∙ omega arith,
    )

-- The values of an `intN_t` of `n` bytes, and their bit patterns.
abbrev pub IsSigned : ℕ → ℤ → Type 0
IsSigned n z = (pos_part z < 2 ^ (8 * n - 1)) × (neg_part z ≤ 2 ^ (8 * n - 1))

abbrev pub pattern_of : ℕ → ℤ → ℕ
pattern_of n (pos k) = k
pattern_of n (negsuc k) = 2 ^ (8 * n) - 1 - k

powers : (n : ℕ) → IsSize n → (2 ^ (8 * n) ≡ 2 * 2 ^ (8 * n - 1)) × (256 ^ n ≡ 2 ^ (8 * n))
powers n (inl e) = rw e (refl, refl)
powers n (inr (inl e)) = rw e (refl, refl)
powers n (inr (inr (inl e))) = rw e (refl, refl)
powers n (inr (inr (inr e))) = rw e (refl, refl)

pattern_facts :
    (n : ℕ) (z : ℤ)
    → IsSize n
    → IsSigned n z
    → (pattern_of n z < 256 ^ n) × (extend true (8 * n) (pattern_of n z) ≡ z)
unfolding extend
pattern_facts n (pos k) size h = ground (arith, powers n size)
pattern_facts n (negsuc k) size h = ground (arith, powers n size)

order_bytes_facts :
    (endian : Endian) (n v : ℕ)
    → v < 256 ^ n
    → (order_value endian (order_bytes endian n v) ≡ v)
      × All IsByte (order_bytes endian n v)
      × (length (order_bytes endian n v) ≡ n)
order_bytes_facts endian_big n v h = be_bytes_facts n v h
order_bytes_facts endian n v h = le_bytes_facts n v h

-- With "@signed" true, every signed number of 1, 2, 4 or 8 bytes is read back from the bytes of its
-- two's-complement pattern in the attribute's byte order.
pub binary_integer_read_generic_roundtrip :
    (m : Machine) (attrs : Attributes) (n : ℕ) (z signed : ℤ) (endian : Endian)
    → IsSize n
    → IsSigned n z
    → attrs.boolean "@signed" ≡ ok signed
    → signed ≢ pos 0
    → integer_read_endian_attribute m attrs ≡ ok endian
    → binary_integer_read_generic m attrs (order_bytes endian n (pattern_of n z)) ≡ ok z
binary_integer_read_generic_roundtrip m attrs n z signed endian size range hs ne he =
    let (fits, same) = pattern_facts n z size range in
    let (value, bytes, len) = order_bytes_facts endian n (pattern_of n z) fits in
    let yes_signed : not (eqb_ℤ signed (pos 0)) ≡ true = ground (arith, eqb_ℤ_iff signed (pos 0)) in
    binary_integer_read_generic-value m attrs (order_bytes endian n (pattern_of n z)) signed endian
      bytes (rw len size) hs he
    ∙ rw (yes_signed, len, value) (ap ok same)

choose_order_ok :
    (size : ℕ) (r : Result Endian) (endian : Endian)
    → choose_order size r ≡ ok endian
    → (r ≡ ok endian) ⊎ (r ≡ err no_item) × (size ≤ 1)
unfolding choose_order
choose_order_ok size (ok e) endian h = inl h
choose_order_ok size (err no_item) endian h = inr (refl, ground arith)
choose_order_ok size (err status) endian h = cc

read_sized_ok :
    (m : Machine) (signed : Bool) (endian : Endian) (bs : List ℕ) (z : ℤ)
    → read_sized m signed endian bs ≡ ok z
    → IsSize (length bs)
unfolding read_sized
read_sized_ok m signed endian bs z h = ground arith

-- The filter returns a number only from a buffer of 1, 2, 4 or 8 bytes, with "@signed" set and with
-- a valid byte order, or none on a single byte.
pub binary_integer_read_generic_ok :
    (m : Machine) (attrs : Attributes) (bs : List ℕ) (z : ℤ)
    → binary_integer_read_generic m attrs bs ≡ ok z
    → IsSize (length bs)
      × ((signed : ℤ) × (attrs.boolean "@signed" ≡ ok signed))
      × (((endian : Endian) × (integer_read_endian_attribute m attrs ≡ ok endian))
          ⊎ (integer_read_endian_attribute m attrs ≡ err no_item) × (length bs ≡ 1))
unfolding binary_integer_read_generic
binary_integer_read_generic_ok m attrs bs z h =
    let (signed, hs, h1) = >>=-eq-ok (attrs.boolean "@signed") _ h in
    let (endian, he, h2) =
      >>=-eq-ok (choose_order (length bs) (integer_read_endian_attribute m attrs)) _ h1 in
    let size = read_sized_ok m _ endian bs z h2 in
    (
      size,
      (signed, hs),
      elim (choose_order_ok (length bs) (integer_read_endian_attribute m attrs) endian he) [
        | inl e ↦ inl (endian, e)
        | inr (e, small) ↦ inr (e, single_size (length bs) size small)
      ],
    )
  where
    single_size : (n : ℕ) → IsSize n → n ≤ 1 → n ≡ 1
    single_size n s small = ground arith
