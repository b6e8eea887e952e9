-- ===== src/Arrays/IndexCache/MarkPlaces.antt =====
-- The offsets of the marks that a cache holds.
use bitpunch.Base.{
  ℕ, zero, suc, ◌+◌, ◌*◌, ◌/◌, ◌%◌, ◌<◌, ◌≡◌, ◌∙◌, refl, ap, inl, inr, arith, Bool, true, false,
  ◌==◌, if◌then◌else◌, Bool-cases, Option, none, some, List, [], ◌∷◌, ◌++◌, get_or, length,
  length-append,
}
use bitpunch.Base.Int.{ℤ}
use bitpunch.Browse.Box.{unset}
use bitpunch.Arrays.IndexCache.{array_add_mark_offset}
use bitpunch.Arrays.IndexCache.Placed.{Contents}

-- There is an offset for every 32 of the first c items, that of the item; none is kept where the
-- items have one size.
abbrev pub HasMarks : Contents → ℕ → Option (List ℤ) → Type 0
HasMarks items c none = items.is_variable ≡ false
HasMarks items c (some offsets) =
    (length offsets ≡ (c + 31) / 32)
    × ((m : ℕ) → m * 32 < c → get_or offsets m unset ≡ items.offset (m * 32))

get_or-left :
    (xs : List ℤ) (y d : ℤ) (i : ℕ) → i < length xs → get_or (xs ++ (y ∷ [])) i d ≡ get_or xs i d
get_or-left [] y d i h = absurd (omega (arith, h))
get_or-left (x ∷ xs) y d zero h = refl
get_or-left (x ∷ xs) y d (suc i) h = get_or-left xs y d i (omega (arith, h))

get_or-last : (xs : List ℤ) (y d : ℤ) → get_or (xs ++ (y ∷ [])) (length xs) d ≡ y
get_or-last [] y d = refl
get_or-last (x ∷ xs) y d = get_or-last xs y d

-- The marks of a cache that the item at c is added to.
pub next-HasMarks :
    (items : Contents) (c : ℕ) (marks : Option (List ℤ)) (z : ℤ) (b : Bool)
    → (0 == c % 32) ≡ b
    → z ≡ items.offset c
    → HasMarks items c marks
    → HasMarks items (suc c) (if b then array_add_mark_offset z marks else marks)
unfolding array_add_mark_offset
next-HasMarks items c none z true start here h = h
next-HasMarks items c none z false start here h = h
next-HasMarks items c (some offsets) z false start here (count, held) =
    (ground arith, λ m inside. held m (ground arith))
next-HasMarks items c (some offsets) z true start here (count, held) =
    let first : c % 32 ≡ 0 = ground arith in
    (
      length-append offsets (z ∷ []) ∙ omega arith,
      λ m inside. elim (Bool-cases (m == length offsets)) [
        | inl new ↦
            let m_new : m ≡ length offsets = ground arith in
            let m_c : c ≡ m * 32 = omega arith in
            ap (λ (k : ℕ). get_or (offsets ++ (z ∷ [])) k unset) m_new
            ∙ get_or-last offsets z unset
            ∙ here
            ∙ ap items.offset m_c
        | inr old ↦
            let other : m < length offsets = ground arith in
            get_or-left offsets z unset m other ∙ held m (omega arith)
      ],
    )
