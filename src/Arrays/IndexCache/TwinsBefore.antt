-- ===== src/Arrays/IndexCache/TwinsBefore.antt =====
-- How many items have a key, and what it is to find the nth one.
use bitpunch.Base.{
  ltb, ℕ, zero, suc, ◌+◌, ◌≤◌, ◌<◌, ◌≡◌, ◌≢◌, ◌∙◌, refl, ap, inl, inr, arith, Bool, false, ◌==◌,
  if◌then◌else◌, some, Bool-cases,
}
use bitpunch.Base.Int.{ℤ, pos, eqb_ℤ, ◌+ℤ◌}
use bitpunch.Status.{Result, ok, err, no_item}
use bitpunch.Expr.Values.{Value, expr_value_cmp}
use bitpunch.Arrays.Tracker.{TrackPath, path_array, track_path_eq}
use bitpunch.Arrays.IndexCache.{State}
use bitpunch.Arrays.IndexCache.Match.{key_is}
use bitpunch.Arrays.IndexCache.Placed.{Contents, IsAt, before}
use bitpunch.Arrays.IndexCache.Coherent.{IsCoherent}
use bitpunch.Arrays.IndexCache.Searched.{IsAbsent}
use bitpunch.Arrays.IndexCache.Passing.{key_is-cases}

module _ (n : ℕ) (items : Contents) (wanted : Value) where
  -- Whether item i has the key, by the comparison of the code.
  abbrev pub has_key : ℕ → Bool
  has_key i = elim (key_is (items.key i) wanted) [ ok same ↦ same | err e ↦ false ]

  -- How many of the first i items have the key.
  unfoldable pub twins_before : ℕ → ℕ
  twins_before zero = 0
  twins_before (suc i) = (if has_key i then 1 else 0) + twins_before i

  abbrev count_test : ℕ → Result Bool → ℕ
  count_test i r = (if elim r [ ok same ↦ same | err e ↦ false ] then 1 else 0) + twins_before i

  abbrev pub AreComparable : Type 0
  AreComparable = (i : ℕ) → i < n → (c : ℤ) × (expr_value_cmp (items.key i) wanted ≡ some c)

  pub twins_before-same :
      (i : ℕ)
      → AreComparable
      → i < n
      → items.key i ≡ wanted
      → twins_before (suc i) ≡ suc (twins_before i)
  unfolding twins_before
  twins_before-same i comparable inside same =
      let (c, compared) = comparable i inside in
      elim (key_is-cases (items.key i) wanted c compared) [
        | inl (yes_key, test) ↦ ap (count_test i) test ∙ omega arith
        | inr (other, test) ↦ elim (other same) [ ]
      ]

  twins_before-other :
      (i : ℕ) → AreComparable → i < n → items.key i ≢ wanted → twins_before (suc i) ≡ twins_before i
  unfolding twins_before
  twins_before-other i comparable inside differs =
      let (c, compared) = comparable i inside in
      elim (key_is-cases (items.key i) wanted c compared) [
        | inl (same, test) ↦ elim (differs same) [ ]
        | inr (other, test) ↦ ap (count_test i) test ∙ omega arith
      ]

  pub twins_before-absent :
      (lo hi : ℕ)
      → AreComparable
      → lo ≤ hi
      → hi ≤ n
      → IsAbsent n items wanted lo hi
      → twins_before hi ≡ twins_before lo
  twins_before-absent lo zero comparable le most absent = ap twins_before (omega arith)
  twins_before-absent lo (suc hi) comparable le most absent = elim (Bool-cases (lo == suc hi)) [
    | inl same ↦ ap twins_before (ground arith)
    | inr earlier ↦
        let within : lo ≤ hi = ground arith in
        twins_before-other hi comparable (omega arith)
          (absent hi within (omega arith) (omega arith))
        ∙ twins_before-absent lo hi comparable within (omega arith)
            (λ i from to. absent i from (omega arith))
  ]

  twins_before-suc_le : (i : ℕ) → twins_before i ≤ twins_before (suc i)
  unfolding twins_before
  twins_before-suc_le i = omega arith

  pub twins_before_mono : (lo hi : ℕ) → lo ≤ hi → twins_before lo ≤ twins_before hi
  twins_before_mono lo zero le = let same : lo ≡ 0 = omega arith in rw same (omega arith)
  twins_before_mono lo (suc hi) le = elim (Bool-cases (lo == suc hi)) [
    | inl same ↦ let same' : lo ≡ suc hi = ground arith in rw same' (omega arith)
    | inr earlier ↦ omega (arith, twins_before_mono lo hi (ground arith), twins_before-suc_le hi)
  ]

  twins_before-lt :
      (i j : ℕ)
      → AreComparable
      → i < n
      → items.key i ≡ wanted
      → i < j
      → twins_before i < twins_before j
  twins_before-lt i j comparable inside same less =
      omega (arith, twins_before-same i comparable inside same, twins_before_mono (suc i) j less)

  -- A twin is known by its number.
  pub twins_before-injective :
      (i j : ℕ)
      → AreComparable
      → i < n
      → j < n
      → items.key i ≡ wanted
      → items.key j ≡ wanted
      → twins_before i ≡ twins_before j
      → i ≡ j
  twins_before-injective i j comparable inside inside' same same' number =
      elim (Bool-cases (ltb i j)) [
        | inl less ↦
            absurd (omega (arith, twins_before-lt i j comparable inside same (ground arith)))
        | inr more ↦ elim (Bool-cases (ltb j i)) [
          | inl less ↦
              absurd (omega (arith, twins_before-lt j i comparable inside' same' (ground arith)))
          | inr equal ↦ ground arith
        ]
      ]

module _ (n : ℕ) (items : Contents) (wanted : Value) (nth : ℕ) where
  -- A test of twins that holds for the one with the number.
  abbrev pub Selects : (ℤ → TrackPath → Bool) → Type 0
  Selects is_wanted =
      (j : ℕ)
      → j < n
      → items.key j ≡ wanted
      → is_wanted (pos (twins_before n items wanted j)) (path_array (pos j))
        ≡ (twins_before n items wanted j == nth)

  -- The twin that is asked for, at item j.
  pub record IsNthTwin (r : Result (Unit {0})) (s : State) : Type 0 where
    pub j : ℕ
    pub inside : j < n
    pub here : items.key j ≡ wanted
    pub number : twins_before n items wanted j ≡ nth
    pub found : r ≡ ok tt
    pub place : IsAt items j s.tk
    pub count : ℕ
    pub most : count ≤ n
    pub coherent : IsCoherent items count s.cache

  -- Too few of the cached items have the key.
  pub record IsTooFew (twin : ℤ) (r : Result (Unit {0})) (s : State) : Type 0 where
    pub none_found : r ≡ err no_item
    pub count : ℕ
    pub most : count ≤ n
    pub coherent : IsCoherent items count s.cache
    pub fewer : twins_before n items wanted count ≤ nth
    pub last_twin : twin ≡ before (twins_before n items wanted count)

  -- Too few of the items have the key.
  pub record HasTooFew (r : Result (Unit {0})) (s : State) : Type 0 where
    pub none_found : r ≡ err no_item
    pub fewer : twins_before n items wanted n ≤ nth
    pub count : ℕ
    pub most : count ≤ n
    pub coherent : IsCoherent items count s.cache

pub before-next : (i : ℕ) → before i +ℤ pos 1 ≡ pos i
unfolding ◌+ℤ◌
before-next zero = refl
before-next (suc i) = ground arith

pub eqb_pos : (i j : ℕ) → eqb_ℤ (pos i) (pos j) ≡ (i == j)
eqb_pos i j = ground arith

pub number-Selects :
    (n : ℕ) (items : Contents) (wanted : Value) (nth : ℕ)
    → Selects n items wanted nth (λ twin path. eqb_ℤ twin (pos nth))
number-Selects n items wanted nth j inside here = eqb_pos (twins_before n items wanted j) nth

pub number-Selects_sym :
    (n : ℕ) (items : Contents) (wanted : Value) (nth : ℕ)
    → Selects n items wanted nth (λ twin path. eqb_ℤ (pos nth) twin)
number-Selects_sym n items wanted nth j inside here =
    eqb_pos nth (twins_before n items wanted j) ∙ (ground arith)

-- The place of item i is the test for the number of that item.
pub place-Selects :
    (n : ℕ) (items : Contents) (wanted : Value) (i : ℕ) (place : TrackPath)
    → AreComparable n items wanted
    → i < n
    → items.key i ≡ wanted
    → place ≡ path_array (pos i)
    → Selects n items wanted (twins_before n items wanted i) (λ twin path. track_path_eq path place)
unfolding track_path_eq
place-Selects n items wanted i place comparable inside same at j inside' same' =
    ap (track_path_eq (path_array (pos j))) at ∙ eqb_pos j i ∙ numbers
  where
    numbers : (j == i) ≡ (twins_before n items wanted j == twins_before n items wanted i)
    numbers = elim (Bool-cases (j == i)) [
      | inl equal ↦
          let e : j ≡ i = ground arith in
          let e' : twins_before n items wanted j ≡ twins_before n items wanted i =
            ap (twins_before n items wanted) e in
          ground arith
      | inr other ↦
          let apart =
            twins_before-injective n items wanted j i comparable inside' inside same' same in
          ground (arith, apart)
    ]
