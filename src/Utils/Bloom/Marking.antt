-- ===== src/Utils/Bloom/Marking.antt =====
-- What an insertion does to the blooms of a book.
use bitpunch.Base.{ℕ, ◌-◌, ◌^◌, ◌<◌, ◌≡◌, arith, true}
use bitpunch.Utils.Bloom.{
  PageLevel, level_0, level_1, Book, bloom_insert, bloom_contains, insert_in_level,
  bloom_book_insert_hash, hash_bloom_mask, hash_prefix, get_page_mark_bloom_idx_in_level,
}
use bitpunch.Utils.Bloom.Bits.{bit_and-apart, bit_and-complement, hash_bloom_mask-lt}
use bitpunch.Utils.Bloom.Lookup.{HasMark}

insert-contains : (x m : ℕ) → m < 2 ^ 64 → bloom_contains (bloom_insert x m) m ≡ true
unfolding bloom_contains bloom_insert
insert-contains x m h = ground (arith, bit_and-complement 64 x m h)

insert-keeps :
    (x m m' : ℕ) → bloom_contains x m ≡ true → bloom_contains (bloom_insert x m') m ≡ true
unfolding bloom_contains bloom_insert
insert-keeps x m m' e = ground (arith, bit_and-apart x (2 ^ 64 - 1 - m') m)

-- A level's insertion keeps what the blooms contain, and adds the word's mask at the last mark.
pub level-keeps :
    (level : PageLevel) (h : ℕ) (book : Book) (mask : ℕ) (page : ℕ) (level' : PageLevel) (idx : ℕ)
    → bloom_contains (book.blooms page level' idx) mask ≡ true
    → bloom_contains ((insert_in_level level h book).blooms page level' idx) mask ≡ true
unfolding insert_in_level
level-keeps level h book mask page level' idx e =
    ground (arith, insert-keeps (book.blooms page level' idx) mask (hash_bloom_mask h))

level-adds :
    (level : PageLevel) (h : ℕ) (book : Book)
    → bloom_contains
        ((insert_in_level level h book).blooms
          (book.n_pages - 1)
          level
          (get_page_mark_bloom_idx_in_level level book.cur_page_mark (hash_prefix h)))
        (hash_bloom_mask h)
      ≡ true
unfolding insert_in_level
level-adds level_0 h book =
    let idx = get_page_mark_bloom_idx_in_level level_0 book.cur_page_mark (hash_prefix h) in
    ground (
      arith,
      insert-contains (book.blooms (book.n_pages - 1) level_0 idx) (hash_bloom_mask h)
          (hash_bloom_mask-lt h),
    )
level-adds level_1 h book =
    let idx = get_page_mark_bloom_idx_in_level level_1 book.cur_page_mark (hash_prefix h) in
    ground (
      arith,
      insert-contains (book.blooms (book.n_pages - 1) level_1 idx) (hash_bloom_mask h)
          (hash_bloom_mask-lt h),
    )

-- A book with a mark.
pub record IsOpen (book : Book) : Type 0 where
  pub pages : 0 < book.n_pages
  pub cur : book.cur_page_mark < 64

pub insert-HasMark :
    (h : ℕ) (book : Book)
    → IsOpen book
    → HasMark
        (bloom_book_insert_hash h book)
        (hash_bloom_mask h)
        (hash_prefix h)
        (book.n_pages - 1)
        book.cur_page_mark
unfolding bloom_book_insert_hash
insert-HasMark h book v =
    let book' = insert_in_level level_0 h book in
    record {
      page_in = omega (arith, v.pages);
      mark_in = ground arith;
      small = v.cur;
      at_1 = level-adds level_1 h book';
      at_0 =
          level-keeps level_1 h book' (hash_bloom_mask h) (book.n_pages - 1) level_0
            (get_page_mark_bloom_idx_in_level level_0 book.cur_page_mark (hash_prefix h))
            (level-adds level_0 h book);
    }
