-- ===== src/Utils/TagSet.antt =====
-- dep_resolver_tagset_t of libbitpunch/include/utils/dep_resolver.h: sets of tags, lowest bit first.
use bitpunch.Base.{
  ℕ, zero, suc, List, [], ◌∷◌, Bool, true, false, not, ◌&&◌, ◌||◌, ◌≡◌, refl, arith,
}

-- The bits of the integer; those that the list does not reach are 0.
abbrev pub TagSet : Type 0
TagSet = List Bool

unfoldable pub has_tag : TagSet → ℕ → Bool
has_tag [] i = false
has_tag (b ∷ s) zero = b
has_tag (b ∷ s) (suc i) = has_tag s i

-- `s | t`
unfoldable pub union : TagSet → TagSet → TagSet
union [] t = t
union (b ∷ s) [] = b ∷ s
union (b ∷ s) (c ∷ t) = (b || c) ∷ union s t

-- `s & t`
unfoldable pub inter : TagSet → TagSet → TagSet
inter [] t = []
inter (b ∷ s) [] = []
inter (b ∷ s) (c ∷ t) = (b && c) ∷ inter s t

-- `s & ~t`
unfoldable pub minus : TagSet → TagSet → TagSet
minus [] t = []
minus (b ∷ s) [] = b ∷ s
minus (b ∷ s) (c ∷ t) = (b && not c) ∷ minus s t

-- `0 == s`
unfoldable pub is_empty : TagSet → Bool
is_empty [] = true
is_empty (b ∷ s) = not b && is_empty s

-- `(s & t) == t`
unfoldable pub contains : TagSet → TagSet → Bool
unfolding minus is_empty
contains s t = is_empty (minus t s)

pub has_tag-union : (s t : TagSet) (i : ℕ) → has_tag (union s t) i ≡ (has_tag s i || has_tag t i)
unfolding has_tag union
has_tag-union [] t i = refl
has_tag-union (b ∷ s) [] i = ground arith
has_tag-union (b ∷ s) (c ∷ t) zero = refl
has_tag-union (b ∷ s) (c ∷ t) (suc i) = has_tag-union s t i

pub has_tag-minus :
    (s t : TagSet) (i : ℕ) → has_tag (minus s t) i ≡ (has_tag s i && not (has_tag t i))
unfolding has_tag minus
has_tag-minus [] t i = refl
has_tag-minus (b ∷ s) [] i = ground arith
has_tag-minus (b ∷ s) (c ∷ t) zero = refl
has_tag-minus (b ∷ s) (c ∷ t) (suc i) = has_tag-minus s t i

pub is_empty_sound : (s : TagSet) (i : ℕ) → is_empty s ≡ true → has_tag s i ≡ false
unfolding has_tag is_empty
is_empty_sound [] i h = refl
is_empty_sound (b ∷ s) zero h = ground arith
is_empty_sound (b ∷ s) (suc i) h = is_empty_sound s i (ground arith)

pub is_empty_complete : (s : TagSet) → ((i : ℕ) → has_tag s i ≡ false) → is_empty s ≡ true
unfolding has_tag is_empty
is_empty_complete [] h = refl
is_empty_complete (b ∷ s) h = ground (arith, h zero, is_empty_complete s (λ i. h (suc i)))
