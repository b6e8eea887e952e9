-- ===== src/Utils/Bloom/Search.antt =====
-- The search of a page: the scan of a level, and the candidate that it gives.
use bitpunch.Base.{
  ℕ, zero, suc, ◌+◌, ◌-◌, ◌*◌, ◌≤◌, ◌<◌, ◌≡◌, ◌≢◌, inl, inr, refl, ap, sym, ◌∙◌, ltb, arith, Bool,
  true, false, ◌==◌, if◌then◌else◌, Option, none, some, Bool-cases,
}
use bitpunch.Utils.Bloom.{
  PageLevel, level_0, level_1, Book, Cookie, prefix_at, bloom_contains,
  get_page_level_prefix_bloom_idx, get_page_mark_bloom_idx_in_level,
  get_start_page_mark_from_bloom_idx,
}
use bitpunch.Utils.Bloom.Query.{
  bloom_end_idx, scan, scan_level, mark_behind, page_candidate, level_0_candidate,
}

pub scan-bounds :
    (c : ℕ → Bool) (left idx : ℕ) → (idx ≤ scan c left idx) × (scan c left idx ≤ idx + left)
unfolding scan
scan-bounds c zero idx = omega arith
scan-bounds c (suc left) idx = ground (arith, scan-bounds c left (idx + 1))

pub scan-first :
    (c : ℕ → Bool) (left idx t : ℕ) → idx ≤ t → t < idx + left → c t ≡ true → scan c left idx ≤ t
unfolding scan
scan-first c zero idx t lo hi e = omega arith
scan-first c (suc left) idx t lo hi e = elim (Bool-cases (c idx)) [
  | inl here ↦ ground arith
  | inr next ↦ let later : idx ≢ t = λ same. cc in ground (arith, scan-first c left (idx + 1) t)
]

idx_0 :
    (mark prefix : ℕ)
    → get_page_mark_bloom_idx_in_level level_0 mark prefix ≡ prefix_at level_0 prefix * 64 + mark
unfolding get_page_mark_bloom_idx_in_level
idx_0 mark prefix = omega arith

idx_1 :
    (mark prefix : ℕ)
    → mark < 64
    → get_page_mark_bloom_idx_in_level level_1 mark prefix ≡ prefix_at level_1 prefix
unfolding get_page_mark_bloom_idx_in_level
idx_1 mark prefix h = omega arith

-- The number of marks that a page has.
abbrev pub marks_in : Book → ℕ → ℕ
marks_in book page = if page == book.n_pages - 1 then book.cur_page_mark + 1 else 64

end_0 :
    (book : Book) (prefix page : ℕ)
    → bloom_end_idx book prefix level_0 page ≡ prefix_at level_0 prefix * 64 + marks_in book page
unfolding bloom_end_idx get_page_level_prefix_bloom_idx
end_0 book prefix page = ground (arith, idx_0 book.cur_page_mark prefix)

end_1 :
    (book : Book) (prefix page : ℕ)
    → book.cur_page_mark < 64
    → bloom_end_idx book prefix level_1 page ≡ prefix_at level_1 prefix + 1
unfolding bloom_end_idx get_page_level_prefix_bloom_idx
end_1 book prefix page h = ground (arith, idx_1 book.cur_page_mark prefix h)

-- The bloom of a mark at a level contains a mask.
abbrev pub IsMarked : Book → ℕ → ℕ → PageLevel → ℕ → ℕ → Type 0
IsMarked book mask prefix level page mark =
    bloom_contains (book.blooms page level (get_page_mark_bloom_idx_in_level level mark prefix))
      mask
    ≡ true

scan_one : (c : ℕ → Bool) (i : ℕ) → scan c 1 i ≡ (if c i then i else i + 1)
unfolding scan
scan_one c i = refl

start_1 : (i : ℕ) → get_start_page_mark_from_bloom_idx level_1 i i ≡ 0
unfolding get_start_page_mark_from_bloom_idx
start_1 i = omega arith

base_0 : (i : ℕ) → get_page_level_prefix_bloom_idx level_0 i ≡ i * 64
unfolding get_page_level_prefix_bloom_idx
base_0 i = omega arith

-- Level 1 has one bloom for a prefix: it passes the search on from the same mark, or ends it.
level_1_pass :
    (idx end_idx first s : ℕ) (b : Bool) (behind : ℕ → ℕ) (next : ℕ → Option ℕ)
    → idx ≡ (if b then first else first + 1)
    → end_idx ≡ first + 1
    → behind first ≡ s
    → (if idx == end_idx then none else next (if ltb idx end_idx then behind idx else s))
      ≡ (if b then next s else none)
level_1_pass idx end_idx first s true behind next e e' h = ground (arith, ap behind e)
level_1_pass idx end_idx first s false behind next e e' h = ground arith

scan-eq :
    (c : ℕ → Bool) (left left' idx idx' : ℕ)
    → left ≡ left'
    → idx ≡ idx'
    → scan c left idx ≡ scan c left' idx'
scan-eq c left left' idx idx' e e' = cc

module _ (book : Book) (cookie : Cookie) (page : ℕ) where
  abbrev first_1 : ℕ
  first_1 = prefix_at level_1 cookie.h_prefix

  abbrev first_0 : ℕ
  first_0 = prefix_at level_0 cookie.h_prefix * 64

  abbrev has_mask : PageLevel → ℕ → Bool
  has_mask level i = bloom_contains (book.blooms page level i) cookie.h_bloom_mask

  scan_0-eq :
      (s : ℕ)
      → scan_level book cookie level_0 page s
        ≡ scan (has_mask level_0) (marks_in book page - s) (first_0 + s)
  unfolding scan_level
  scan_0-eq s =
      scan-eq (has_mask level_0)
        (bloom_end_idx book cookie.h_prefix level_0 page
          - get_page_mark_bloom_idx_in_level level_0 s cookie.h_prefix)
        (marks_in book page - s) (get_page_mark_bloom_idx_in_level level_0 s cookie.h_prefix)
        (first_0 + s) (omega (arith, idx_0 s cookie.h_prefix, end_0 book cookie.h_prefix page))
        (idx_0 s cookie.h_prefix)

  scan_1-eq :
      (s : ℕ)
      → s < 64
      → book.cur_page_mark < 64
      → scan_level book cookie level_1 page s ≡ scan (has_mask level_1) 1 first_1
  unfolding scan_level
  scan_1-eq s small cur =
      scan-eq (has_mask level_1)
        (bloom_end_idx book cookie.h_prefix level_1 page
          - get_page_mark_bloom_idx_in_level level_1 s cookie.h_prefix)
        1 (get_page_mark_bloom_idx_in_level level_1 s cookie.h_prefix) first_1
        (omega (arith, idx_1 s cookie.h_prefix small, end_1 book cookie.h_prefix page cur))
        (idx_1 s cookie.h_prefix small)

  level_0_candidate-eq :
      (s : ℕ)
      → level_0_candidate book cookie page s ≡ (
          let found = scan (has_mask level_0) (marks_in book page - s) (first_0 + s) in
          if found == first_0 + marks_in book page then none else some (found - first_0))
  unfolding level_0_candidate
  level_0_candidate-eq s =
      cc (scan_0-eq s, end_0 book cookie.h_prefix page, base_0 (prefix_at level_0 cookie.h_prefix))

  -- The search starts from a mark of the page, the first one behind the cookie.
  page_candidate-eq :
      (s : ℕ)
      → s < 64
      → book.cur_page_mark < 64
      → mark_behind cookie.place page 0 ≡ s
      → page_candidate book cookie page s
        ≡ (if has_mask level_1 first_1 then level_0_candidate book cookie page s else none)
  unfolding page_candidate
  page_candidate-eq s small cur start =
      level_1_pass (scan_level book cookie level_1 page s)
        (bloom_end_idx book cookie.h_prefix level_1 page) first_1 s (has_mask level_1 first_1)
        (λ idx.
          mark_behind cookie.place page (get_start_page_mark_from_bloom_idx level_1 idx first_1))
        (level_0_candidate book cookie page)
        (scan_1-eq s small cur ∙ scan_one (has_mask level_1) first_1)
        (end_1 book cookie.h_prefix page cur)
        (ap (mark_behind cookie.place page) (start_1 first_1) ∙ start)

  -- A candidate is a mark of the page, no earlier than where the search starts.
  pub page_candidate-some :
      (s m : ℕ)
      → s ≤ marks_in book page
      → s < 64
      → book.cur_page_mark < 64
      → mark_behind cookie.place page 0 ≡ s
      → page_candidate book cookie page s ≡ some m
      → (s ≤ m) × (m < marks_in book page)
  page_candidate-some s m inside small cur start e = ground (
    arith,
    page_candidate-eq s small cur start,
    level_0_candidate-eq s,
    scan-bounds (has_mask level_0) (marks_in book page - s) (first_0 + s),
  )

  -- A mark whose blooms contain the mask is not passed over.
  pub page_candidate-hit :
      (s m : ℕ)
      → s ≤ m
      → m < marks_in book page
      → m < 64
      → book.cur_page_mark < 64
      → mark_behind cookie.place page 0 ≡ s
      → IsMarked book cookie.h_bloom_mask cookie.h_prefix level_1 page m
      → IsMarked book cookie.h_bloom_mask cookie.h_prefix level_0 page m
      → (m' : ℕ) × (page_candidate book cookie page s ≡ some m') × (m' ≤ m)
  page_candidate-hit s m below inside small cur start marked_1 marked_0 =
      let found = scan (has_mask level_0) (marks_in book page - s) (first_0 + s) in
      let at_1 : has_mask level_1 first_1 ≡ true =
        ap (has_mask level_1) (sym (idx_1 m cookie.h_prefix small)) ∙ marked_1 in
      let at_0 : has_mask level_0 (first_0 + m) ≡ true =
        ap (has_mask level_0) (sym (idx_0 m cookie.h_prefix)) ∙ marked_0 in
      let first =
        scan-first (has_mask level_0) (marks_in book page - s) (first_0 + s) (first_0 + m)
          (omega arith) (omega arith) at_0 in
      let not_end : (found == first_0 + marks_in book page) ≡ false = ground (arith, first) in
      (
        found - first_0,
        page_candidate-eq s (omega arith) cur start
            ∙ (rw at_1 (level_0_candidate-eq s ∙ (rw not_end refl))),
        omega (arith, first),
      )
