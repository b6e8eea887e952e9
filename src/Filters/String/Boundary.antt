-- ===== src/Filters/String/Boundary.antt =====
-- A string is cut out of a buffer at its boundary, and read without it.
use bitpunch.Base.{
  ℕ, ◌+◌, ◌-◌, ◌≡◌, refl, sym, ap, arith, List, [], ◌∷◌, ◌++◌, length, take, drop, length-append,
}
use bitpunch.Base.{some, true, false, leb, bytes_eq_iff}
use bitpunch.Status.{ok}
use bitpunch.Filters.Attributes.{Attributes}
use bitpunch.Filters.String.{
  whole, starts_with, find_bytes, size_with, compute_item_size_generic, read_with,
  string_read_generic,
}

-- The boundary `b` occurs at no place before the end of `s` in `s ++ t`.
abbrev pub IsFree : List ℕ → List ℕ → List ℕ → Type 0
IsFree b [] t = Unit {0}
IsFree b (x ∷ s) t = (starts_with b ((x ∷ s) ++ t) ≡ false) × IsFree b s t

starts_with-append : (b t : List ℕ) → starts_with b (b ++ t) ≡ true
unfolding starts_with
starts_with-append [] t = refl
starts_with-append (x ∷ b) t = ground (arith, starts_with-append b t)

found_first :
    (b s t : List ℕ) → IsFree b s (b ++ t) → find_bytes b (s ++ (b ++ t)) ≡ some (length s)
unfolding find_bytes
found_first [] [] [] h = refl
found_first [] [] (x ∷ t) h = ground (arith, starts_with-append [] (x ∷ t))
found_first (x ∷ b) [] t h = ground (arith, starts_with-append (x ∷ b) t)
found_first b (x ∷ s) t (h, free) = ground (arith, found_first b s t free)

take-length : (s t : List ℕ) → take (length s) (s ++ t) ≡ s
take-length [] t = refl
take-length (x ∷ s) t = ap (λ r. x ∷ r) (take-length s t)

drop-length : (s t : List ℕ) → drop (length s) (s ++ t) ≡ t
drop-length [] t = refl
drop-length (x ∷ s) t = drop-length s t

append_assoc : (s t u : List ℕ) → s ++ (t ++ u) ≡ (s ++ t) ++ u
append_assoc [] t u = refl
append_assoc (x ∷ s) t u = ap (λ r. x ∷ r) (append_assoc s t u)

read_bounded : (b s : List ℕ) → read_with (ok b) (s ++ b) ≡ ok (whole s)
unfolding read_with
read_bounded b s =
    let len = length-append s b in
    let back : length (s ++ b) - length b ≡ length s = omega (arith, len) in
    let inside : leb (length b) (length (s ++ b)) ≡ true = ground (arith, len) in
    rw (back, inside, drop-length s b, (bytes_eq_iff b b).1 refl, take-length s b) refl

-- With the boundary `b`, a text in which `b` does not occur early is given the size of the text and
-- the boundary, whatever follows; and what is read from so many bytes is the text.
pub compute_item_size_generic-read :
    (attrs : Attributes) (b s t : List ℕ)
    → attrs.string "@boundary" ≡ ok b
    → IsFree b s (b ++ t)
    → (compute_item_size_generic attrs (s ++ (b ++ t)) ≡ ok (length s + length b))
      × (string_read_generic attrs (take (length s + length b) (s ++ (b ++ t))) ≡ ok (whole s))
unfolding compute_item_size_generic size_with string_read_generic
compute_item_size_generic-read attrs b s t h free =
    let cut : take (length s + length b) (s ++ (b ++ t)) ≡ s ++ b =
      rw (append_assoc s b t, sym (length-append s b)) (take-length (s ++ b) t) in
    (rw (h, size_with, found_first b s t free) refl, rw (h, cut) (read_bounded b s))
