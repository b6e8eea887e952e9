-- ===== src/Utils/Bloom.antt =====
-- libbitpunch/src/utils/bloom.c: a book of Bloom filters, which tells behind which marks a word
-- may have been inserted. A bloom is a word of 64 bits, in which an inserted bit is 0.
pub mod Bits
pub mod Query
pub mod Search
pub mod Lookup
pub mod Bounds
pub mod Marking
pub mod Words
use bitpunch.Base.{
  ℕ, zero, suc, ◌+◌, ◌-◌, ◌*◌, ◌/◌, ◌%◌, ◌^◌, bit_and, bit_or, bit_xor, Bool, true, false, ◌&&◌,
  ◌==◌, ltb, leb, if◌then◌else◌, Option, none, some, List, [], ◌∷◌,
}

-- N_MARKS_PER_PAGE, by log2_n_blooms_per_prefix_level(0).
abbrev pub n_marks_per_page : ℕ
n_marks_per_page = 64

-- `int level`, of N_PAGE_LEVELS.
pub data PageLevel : Type 0 where
  level_0 level_1 : PageLevel

abbrev pub word_prefix_len_per_page_level : PageLevel → ℕ
word_prefix_len_per_page_level level_0 = 2
word_prefix_len_per_page_level level_1 = 8

abbrev pub log2_n_blooms_per_prefix_level : PageLevel → ℕ
log2_n_blooms_per_prefix_level level = 8 - word_prefix_len_per_page_level level

-- `struct bloom_book`: the bloom of a page at a level and an index.
pub record Book : Type 0 where
  pub blooms : ℕ → PageLevel → ℕ → ℕ
  pub n_pages : ℕ
  pub cur_page_mark : ℕ

abbrev pub bloom_init : ℕ
bloom_init = 2 ^ 64 - 1

unfoldable pub bloom_insert : ℕ → ℕ → ℕ
bloom_insert bloom mask = bit_and bloom (2 ^ 64 - 1 - mask)

unfoldable pub bloom_contains : ℕ → ℕ → Bool
bloom_contains bloom mask = bit_and bloom mask == 0

unfoldable pub bloom_book_create : Book
bloom_book_create = record {
  blooms = λ page level idx. 0;
  n_pages = 0;
  cur_page_mark = n_marks_per_page - 1;
}

unfoldable pub bloom_book_add_mark : Book → Book
bloom_book_add_mark book =
    if book.cur_page_mark + 1 == n_marks_per_page
    then record {
      blooms =
          λ page level idx. if page == book.n_pages then bloom_init else book.blooms page level idx;
      n_pages = book.n_pages + 1;
      cur_page_mark = 0;
    }
    else record book { cur_page_mark = book.cur_page_mark + 1 }

-- The mark that bloom_book_add_mark returns.
abbrev pub mark_of : Book → ℕ
mark_of book = (book.n_pages - 1) * n_marks_per_page + book.cur_page_mark

-- `page` and `cur_page_mark` of `struct bloom_book_cookie`: NULL and 0, a mark, or NULL and
-- PAGE_MARK_NOMORE.
pub data Place : Type 0 where
  before_first : Place
  at_mark : ℕ → ℕ → Place
  no_more : Place

pub record Cookie : Type 0 where
  pub h_bloom_mask : ℕ
  pub h_prefix : ℕ
  pub place : Place

-- bloom_book_get_cookie_mark, where none stands for BLOOM_BOOK_MARK_NONE.
unfoldable pub bloom_book_get_cookie_mark : Cookie → Option ℕ
bloom_book_get_cookie_mark cookie = elim cookie.place [
  | at_mark page mark ↦ some (page * n_marks_per_page + mark)
  | _ ↦ none
]

-- bloom_book_set_mark_in_cookie, and no_more where it returns -1.
unfoldable pub place_of : Book → Option ℕ → Place
place_of book none = before_first
place_of book (some mark) =
    if leb book.n_pages (mark / n_marks_per_page)
    then no_more
    else at_mark (mark / n_marks_per_page) (mark % n_marks_per_page)

unfoldable pub hash_from : ℕ → List ℕ → ℕ
hash_from hash [] = hash
hash_from hash (c ∷ word) = hash_from (bit_xor ((hash * 2 ^ 5 % 2 ^ 64 + hash) % 2 ^ 64) c) word

unfoldable pub hash_word_djb2_64bit : List ℕ → ℕ
unfolding hash_from
hash_word_djb2_64bit word = hash_from 5381 word

abbrev pub mask_bit : ℕ → ℕ
mask_bit h_word = 2 ^ bit_and h_word 63

-- extract_hash_prefix_and_bloom_mask.
unfoldable pub hash_bloom_mask : ℕ → ℕ
hash_bloom_mask h_word =
    bit_or
      (bit_or (bit_or (mask_bit h_word) (mask_bit (h_word / 2 ^ 6))) (mask_bit (h_word / 2 ^ 12)))
      (mask_bit (h_word / 2 ^ 18))

abbrev pub hash_prefix : ℕ → ℕ
hash_prefix h_word = h_word / 2 ^ 24

abbrev pub truncate_prefix : ℕ → ℕ → ℕ
truncate_prefix prefix prefix_len = bit_and prefix (2 ^ prefix_len - 1)

unfoldable pub get_page_level_prefix_bloom_idx : PageLevel → ℕ → ℕ
get_page_level_prefix_bloom_idx level h_prefix_level =
    h_prefix_level * 2 ^ log2_n_blooms_per_prefix_level level

abbrev pub level_shift : PageLevel → ℕ
level_shift level = word_prefix_len_per_page_level level - word_prefix_len_per_page_level level_0

unfoldable pub get_page_mark_bloom_idx_in_level_prefix : PageLevel → ℕ → ℕ
get_page_mark_bloom_idx_in_level_prefix level page_mark = page_mark / 2 ^ level_shift level

unfoldable pub get_start_page_mark_from_bloom_idx : PageLevel → ℕ → ℕ → ℕ
unfolding get_page_level_prefix_bloom_idx
get_start_page_mark_from_bloom_idx level bloom_idx h_prefix_level =
    (bloom_idx - get_page_level_prefix_bloom_idx level h_prefix_level) * 2 ^ level_shift level

abbrev pub prefix_at : PageLevel → ℕ → ℕ
prefix_at level h_prefix = truncate_prefix h_prefix (word_prefix_len_per_page_level level)

unfoldable pub get_page_mark_bloom_idx_in_level : PageLevel → ℕ → ℕ → ℕ
unfolding get_page_level_prefix_bloom_idx get_page_mark_bloom_idx_in_level_prefix
get_page_mark_bloom_idx_in_level level page_mark h_prefix =
    get_page_level_prefix_bloom_idx level (prefix_at level h_prefix)
    + get_page_mark_bloom_idx_in_level_prefix level page_mark

abbrev same_level : PageLevel → PageLevel → Bool
same_level level_0 level_0 = true
same_level level_1 level_1 = true
same_level _ _ = false

-- One round of the loop of bloom_book_insert_hash_internal.
unfoldable pub insert_in_level : PageLevel → ℕ → Book → Book
unfolding bloom_insert get_page_mark_bloom_idx_in_level
insert_in_level level h_word book = record book {
  blooms = λ page level' idx.
      if page == book.n_pages - 1
        && same_level level' level
        && idx == get_page_mark_bloom_idx_in_level level book.cur_page_mark (hash_prefix h_word)
      then bloom_insert (book.blooms page level' idx) (hash_bloom_mask h_word)
      else book.blooms page level' idx;
}

unfoldable pub bloom_book_insert_hash : ℕ → Book → Book
unfolding insert_in_level
bloom_book_insert_hash h_word book =
    insert_in_level level_1 h_word (insert_in_level level_0 h_word book)

unfoldable pub bloom_book_insert_word : List ℕ → Book → Book
unfolding hash_word_djb2_64bit bloom_book_insert_hash
bloom_book_insert_word word book = bloom_book_insert_hash (hash_word_djb2_64bit word) book
