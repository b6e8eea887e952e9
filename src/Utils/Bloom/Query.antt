-- ===== src/Utils/Bloom/Query.antt =====
-- libbitpunch/src/utils/bloom.c: the lookup of a word, from mark to mark.
use bitpunch.Base.{
  ℕ, zero, suc, ◌+◌, ◌-◌, Bool, ◌&&◌, ◌==◌, ltb, leb, if◌then◌else◌, Option, none, some, List,
}
use bitpunch.Utils.Bloom.{
  PageLevel, level_0, level_1, Book, Cookie, Place, before_first, at_mark, no_more,
  n_marks_per_page, prefix_at, hash_word_djb2_64bit, hash_bloom_mask, hash_prefix, place_of,
  bloom_contains, bloom_book_get_cookie_mark, get_page_level_prefix_bloom_idx,
  get_page_mark_bloom_idx_in_level, get_start_page_mark_from_bloom_idx,
}

unfoldable pub bloom_book_lookup_word_from_mark : Book → List ℕ → Option ℕ → Cookie
unfolding hash_word_djb2_64bit hash_bloom_mask place_of
bloom_book_lookup_word_from_mark book word from_mark =
    let h_word = hash_word_djb2_64bit word in
    let cookie_mark : Option ℕ = elim from_mark [
      | none ↦ none
      | some mark ↦ (if mark == 0 then none else some (mark - 1))
    ] in
    record {
      h_bloom_mask = hash_bloom_mask h_word;
      h_prefix = hash_prefix h_word;
      place = place_of book cookie_mark;
    }

-- The inner loop: the first index from `idx` on, of `left` ones, whose bloom contains the mask,
-- else the end.
unfoldable pub scan : (ℕ → Bool) → ℕ → ℕ → ℕ
scan contains zero idx = idx
scan contains (suc left) idx =
    let rest = scan contains left (idx + 1) in if contains idx then idx else rest

-- bloom_end_idx[level], in a page.
unfoldable pub bloom_end_idx : Book → ℕ → PageLevel → ℕ → ℕ
unfolding get_page_mark_bloom_idx_in_level
bloom_end_idx book h_prefix level page =
    if page == book.n_pages - 1
    then get_page_mark_bloom_idx_in_level level book.cur_page_mark h_prefix + 1
    else get_page_level_prefix_bloom_idx level (prefix_at level h_prefix + 1)

unfoldable pub scan_level : Book → Cookie → PageLevel → ℕ → ℕ → ℕ
unfolding scan bloom_contains bloom_end_idx
scan_level book cookie level page page_mark =
    let idx = get_page_mark_bloom_idx_in_level level page_mark cookie.h_prefix in
    scan (λ i. bloom_contains (book.blooms page level i) cookie.h_bloom_mask)
      (bloom_end_idx book cookie.h_prefix level page - idx) idx

-- The mark that a hit leads to, no earlier than behind the one that the cookie stands at.
unfoldable pub mark_behind : Place → ℕ → ℕ → ℕ
mark_behind (at_mark cookie_page cookie_mark) page mark =
    if leb mark cookie_mark && page == cookie_page then cookie_mark + 1 else mark
mark_behind _ page mark = mark

-- The body of the loop over the pages, at level 0: the mark of a candidate in the page.
unfoldable pub level_0_candidate : Book → Cookie → ℕ → ℕ → Option ℕ
unfolding scan_level
level_0_candidate book cookie page page_mark =
    let idx = scan_level book cookie level_0 page page_mark in
    if idx == bloom_end_idx book cookie.h_prefix level_0 page
    then none
    else some (idx - get_page_level_prefix_bloom_idx level_0 (prefix_at level_0 cookie.h_prefix))

-- The same from level 1 on, which a candidate has to pass first.
unfoldable pub page_candidate : Book → Cookie → ℕ → ℕ → Option ℕ
unfolding level_0_candidate mark_behind get_start_page_mark_from_bloom_idx
page_candidate book cookie page page_mark =
    let idx = scan_level book cookie level_1 page page_mark in
    let end_idx = bloom_end_idx book cookie.h_prefix level_1 page in
    if idx == end_idx
    then none
    else level_0_candidate book cookie page (
        if ltb idx end_idx
        then mark_behind cookie.place page
            (get_start_page_mark_from_bloom_idx level_1 idx (prefix_at level_1 cookie.h_prefix))
        else page_mark)

-- The loop over the pages, from `page` on, of which `left` are left.
unfoldable pub lookup_pages : Book → Cookie → ℕ → ℕ → ℕ → Place
lookup_pages book cookie zero page page_mark = no_more
lookup_pages book cookie (suc left) page page_mark =
    let rest = lookup_pages book cookie left (page + 1) 0 in
    elim (page_candidate book cookie page page_mark) [ none ↦ rest | some mark ↦ at_mark page mark ]

-- bloom_book_lookup_word_internal.
unfoldable pub bloom_book_lookup_word : Book → Cookie → Place
unfolding lookup_pages page_candidate
bloom_book_lookup_word book cookie = elim cookie.place [
  | no_more ↦ no_more
  | before_first ↦ lookup_pages book cookie book.n_pages 0 0
  | at_mark page mark ↦
      if mark + 1 == n_marks_per_page
      then lookup_pages book cookie (book.n_pages - (page + 1)) (page + 1) 0
      else lookup_pages book cookie (book.n_pages - page) page (mark + 1)
]

unfoldable pub bloom_book_lookup_word_get_next_candidate : Book → Cookie → Option ℕ × Cookie
unfolding bloom_book_lookup_word bloom_book_get_cookie_mark
bloom_book_lookup_word_get_next_candidate book cookie =
    let cookie' = record cookie { place = bloom_book_lookup_word book cookie } in
    (bloom_book_get_cookie_mark cookie', cookie')
