-- ===== src/Runs/Bloom.antt =====
-- Runs of the book of Bloom filters: a word behind the second mark, then another mark and word.
use bitpunch.Base.{ℕ, ◌≤◌, ◌≡◌, refl, arith, some, none, List, [], ◌∷◌}
use bitpunch.Utils.Bloom.{
  mark_of, bloom_book_create, bloom_book_add_mark, bloom_book_insert_word, bloom_book_insert_hash,
  insert_in_level, hash_word_djb2_64bit, hash_bloom_mask, bloom_insert, bloom_contains, place_of,
  bloom_book_get_cookie_mark, get_page_mark_bloom_idx_in_level, get_page_level_prefix_bloom_idx,
  get_start_page_mark_from_bloom_idx, get_page_mark_bloom_idx_in_level_prefix,
}
use bitpunch.Utils.Bloom.Query.{
  bloom_book_lookup_word_from_mark, bloom_book_lookup_word, lookup_pages, page_candidate,
  level_0_candidate, scan_level, scan, bloom_end_idx, mark_behind,
  bloom_book_lookup_word_get_next_candidate,
}
use bitpunch.Utils.Bloom.Words.{
  Change, new_mark, new_word, changes, change, first_book, bloom_book_no_miss,
}

abbrev foo : List ℕ
foo = 0x66 ∷ 0x6f ∷ 0x6f ∷ []

abbrev bar : List ℕ
bar = 0x62 ∷ 0x61 ∷ 0x72 ∷ []

abbrev before : List Change
before = new_word bar ∷ new_mark ∷ []

abbrev after : List Change
after = new_mark ∷ new_word bar ∷ []

mark_run : mark_of (changes before first_book) ≡ 1
unfolding changes change bloom_book_create bloom_book_add_mark bloom_book_insert_word
    bloom_book_insert_hash insert_in_level
mark_run = refl

foo_hash : hash_word_djb2_64bit foo ≡ 193410979
unfolding hash_word_djb2_64bit
foo_hash = refl

-- The first candidate for the word is the mark behind which it was inserted.
foo_candidate :
    (bloom_book_lookup_word_get_next_candidate
      (changes after (bloom_book_insert_word foo (changes before first_book)))
      (bloom_book_lookup_word_from_mark
        (changes after (bloom_book_insert_word foo (changes before first_book)))
        foo
        none)).0
    ≡ some 1
unfolding changes change bloom_book_create bloom_book_add_mark bloom_book_insert_word
    bloom_book_insert_hash insert_in_level hash_word_djb2_64bit hash_bloom_mask bloom_insert
    bloom_contains bloom_book_lookup_word_from_mark place_of bloom_book_lookup_word lookup_pages
    page_candidate level_0_candidate scan_level scan bloom_end_idx mark_behind
    bloom_book_lookup_word_get_next_candidate bloom_book_get_cookie_mark
    get_page_mark_bloom_idx_in_level get_page_level_prefix_bloom_idx
    get_start_page_mark_from_bloom_idx get_page_mark_bloom_idx_in_level_prefix
foo_candidate = refl

no_miss_example :
    (mark : ℕ) × ((bloom_book_lookup_word_get_next_candidate
        (changes after (bloom_book_insert_word foo (changes before first_book)))
        (bloom_book_lookup_word_from_mark
          (changes after (bloom_book_insert_word foo (changes before first_book)))
          foo
          (some 1))).0
      ≡ some mark)
    × (1 ≤ mark)
    × (mark ≤ mark_of (changes before first_book))
no_miss_example = bloom_book_no_miss before after foo 1 (omega (arith, mark_run))
