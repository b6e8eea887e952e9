-- ===== src/Filters/String/Build.antt =====
-- The instance chosen for a constant boundary does what the generic one does.
use bitpunch.Base.{
  ℕ, zero, suc, ◌+◌, ◌-◌, ◌≡◌, All, Bool-cases, inl, inr, ◌≢◌, refl, ap, ◌∙◌, arith, List, [], ◌∷◌,
  ◌++◌, length, take, drop, get_or,
}
use bitpunch.Base.{some, true, false, leb, ◌==◌, bytes_eq, bytes_eq_iff}
use bitpunch.Status.{ok}
use bitpunch.Filters.Attributes.{Attributes}
use bitpunch.Filters.String.{
  find_byte, starts_with, find_bytes, compute_item_size_single, string_read_single, size_with,
  compute_item_size_generic, read_with, string_read_generic, string_read_no_boundary, AttributeStmt,
  boundary_name, build_constant, string_filter_instance_build, read_instance,
}

same_place : (c : ℕ) (s : List ℕ) → find_bytes (c ∷ []) s ≡ find_byte c s
unfolding find_bytes find_byte starts_with
same_place c [] = refl
same_place c (x ∷ s) = ground (arith, same_place c s)

-- The search for one character gives the size that the generic search does.
compute_item_size_single-generic :
    (attrs : Attributes) (c : ℕ) (s : List ℕ)
    → attrs.string "@boundary" ≡ ok (c ∷ [])
    → compute_item_size_single c s ≡ compute_item_size_generic attrs s
unfolding compute_item_size_single compute_item_size_generic size_with
compute_item_size_single-generic attrs c s h = rw (h, size_with, same_place c s) refl

last_byte :
    (c n : ℕ) (s : List ℕ) → n + 1 ≡ length s → bytes_eq (drop n s) (c ∷ []) ≡ (get_or s n 0 == c)
unfolding bytes_eq
last_byte c n [] h = absurd (omega arith)
last_byte c zero (x ∷ []) h = ground arith
last_byte c (suc n) (x ∷ []) h = absurd (omega arith)
last_byte c zero (x ∷ y ∷ s) h = absurd (omega arith)
last_byte c (suc n) (x ∷ y ∷ s) h = last_byte c n (y ∷ s) (omega arith)

read_single : (c : ℕ) (s : List ℕ) → string_read_single c s ≡ read_with (ok (c ∷ [])) s
unfolding string_read_single read_with
read_single c [] = refl
read_single c (x ∷ s) = rw (last_byte c (length (x ∷ s) - 1) (x ∷ s) (omega arith)) refl

drop_all : (s : List ℕ) → drop (length s) s ≡ []
drop_all [] = refl
drop_all (x ∷ s) = drop_all s

take_all : (s : List ℕ) → take (length s) s ≡ s
take_all [] = refl
take_all (x ∷ s) = ap (λ r. x ∷ r) (take_all s)

read_empty : (s : List ℕ) → string_read_no_boundary s ≡ read_with (ok []) s
unfolding string_read_no_boundary read_with
read_empty s =
    let all : length s - 0 ≡ length s = omega arith in
    let fits : leb 0 (length s) ≡ true = ground arith in rw (all, fits, drop_all s, take_all s) refl

read_constant :
    (attrs : Attributes) (b s : List ℕ)
    → attrs.string "@boundary" ≡ ok b
    → read_instance (build_constant (some b)) attrs s ≡ string_read_generic attrs s
unfolding read_instance build_constant string_read_generic
read_constant attrs [] s h = read_empty s ∙ rw h refl
read_constant attrs (c ∷ []) s h = read_single c s ∙ rw h refl
read_constant attrs (c ∷ d ∷ b) s h = refl

-- When the first "@boundary" among a filter's attributes is a constant without a condition, and its
-- evaluation returns that constant, then the instance built for it reads every buffer as the generic
-- one does, and the filter does not claim to fill its slack.
pub string_filter_instance_build-read :
    (attrs : Attributes) (before after : List AttributeStmt) (stmt : AttributeStmt) (b s : List ℕ)
    → All (λ other. other.name ≢ boundary_name) before
    → stmt.name ≡ boundary_name
    → stmt.constant ≡ some b
    → attrs.string "@boundary" ≡ ok b
    → (read_instance (string_filter_instance_build (before ++ (stmt ∷ after))).0 attrs s
        ≡ string_read_generic attrs s)
      × ((string_filter_instance_build (before ++ (stmt ∷ after))).1 ≡ false)
unfolding string_filter_instance_build
string_filter_instance_build-read attrs [] after stmt b s others named constant set =
    rw (named, constant) (read_constant attrs b s set, refl)
string_filter_instance_build-read attrs (other ∷ before) after stmt b s (ne, others) named constant
      set =
    rw (differs other.name ne)
      (string_filter_instance_build-read attrs before after stmt b s others named constant set)
  where
    differs : (name : List ℕ) → name ≢ boundary_name → bytes_eq name boundary_name ≡ false
    differs name ne = elim (Bool-cases (bytes_eq name boundary_name)) [
      | inl e ↦ absurd (ne ((bytes_eq_iff name boundary_name).0 e))
      | inr e ↦ e
    ]
