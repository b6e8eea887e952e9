-- ===== src/Arrays/IndexCache/Coherent.antt =====
-- The cache of an indexed array holds the keys of its first items.
use mathlib.Core.Path.{subst}
use bitpunch.Base.{
  ℕ, suc, ◌+◌, ◌-◌, ◌*◌, ◌/◌, ◌%◌, ◌^◌, bit_and, ◌≤◌, ◌<◌, ◌≡◌, ◌∙◌, refl, sym, ap, inl, inr, arith,
  true, false, Bool, ◌==◌, if◌then◌else◌, none, some, [], Bool-cases,
}
use bitpunch.Base.Bits.{bit_and-mask}
use bitpunch.Base.Int.{pos}
use bitpunch.Status.{ok}
use bitpunch.Expr.Values.{Value}
use bitpunch.Arrays.Tracker.{path_array}
use bitpunch.Utils.Bloom.{
  Book, bloom_book_create, bloom_book_add_mark, bloom_book_insert_word, bloom_book_insert_hash,
  insert_in_level, hash_word_djb2_64bit, hash_bloom_mask, hash_prefix,
}
use bitpunch.Utils.Bloom.Lookup.{HasMark}
use bitpunch.Utils.Bloom.Marking.{IsOpen, insert-HasMark}
use bitpunch.Utils.Bloom.Words.{new_mark, new_word, change, change-HasMark}
use bitpunch.Arrays.IndexCache.Placed.{Contents, IsAt, before}
use bitpunch.Arrays.IndexCache.MarkPlaces.{HasMarks, next-HasMarks}
use bitpunch.Arrays.IndexCache.{
  ArrayCache, array_add_mark_offset, Items, State, expr_value_to_hashable, array_index_is_marked,
  add_mark, insert_key, array_index_cache_init, tracker_index_cache_add_item,
}

abbrev pub hash_of : Value → ℕ
hash_of key = hash_word_djb2_64bit (expr_value_to_hashable key)

-- The book has the key's hash behind the mark of the item at i.
abbrev pub HoldsKey : Book → Value → ℕ → Type 0
HoldsKey book key i =
    HasMark book (hash_bloom_mask (hash_of key)) (hash_prefix (hash_of key)) (i / 32 / 64)
      (i / 32 % 64)

-- The book has a mark for every 32 of the first c items, and behind it their keys.
pub record IsBookOf (key : ℕ → Value) (c : ℕ) (book : Book) : Type 0 where
  pub cur : book.cur_page_mark < 64
  pub marks : book.n_pages * 64 + book.cur_page_mark + 1 ≡ 64 + (c + 31) / 32
  pub held : (i : ℕ) → i < c → HoldsKey book (key i) i

-- The cache holds the keys of the first c items, the offsets of their marks, and the index and the
-- offset of the last one.
pub record IsCoherent (items : Contents) (c : ℕ) (cache : ArrayCache) : Type 0 where
  pub book : Book
  pub indexed : cache.cache_by_key ≡ some book
  pub log2 : cache.cache_log2_n_keys_per_mark ≡ 5
  pub last : cache.last_cached_index ≡ before c
  pub book_ok : IsBookOf items.key c book
  pub marks : HasMarks items c cache.mark_offsets
  pub last_offset : (i : ℕ) → c ≡ suc i → cache.last_cached_item_offset ≡ items.offset i

init-eq :
    (a : Items) (cache : ArrayCache)
    → array_index_cache_init a true ≡ ok cache
    → (cache.cache_by_key ≡ some bloom_book_create)
      × (cache.cache_log2_n_keys_per_mark ≡ 5)
      × (cache.last_cached_index ≡ before 0)
      × ((is_variable : Bool)
          → a.item_type ≡ ok is_variable
          → cache.mark_offsets ≡ (if is_variable then some [] else none))
unfolding array_index_cache_init
init-eq a cache e = (ground arith, ground arith, ground arith, λ is_variable typed. ground arith)

no_marks :
    (items : Contents) (b : Bool)
    → items.is_variable ≡ b
    → HasMarks items 0 (if b then some [] else none)
no_marks items true e = (omega arith, λ m h. absurd (omega (arith, h)))
no_marks items false e = e

pub init-IsCoherent :
    (a : Items) (items : Contents) (cache : ArrayCache)
    → a.item_type ≡ ok items.is_variable
    → array_index_cache_init a true ≡ ok cache
    → IsCoherent items 0 cache
unfolding array_index_cache_init bloom_book_create
init-IsCoherent a items cache typed e =
    let (keys, log2, last, offsets) = init-eq a cache e in
    record {
      book = bloom_book_create;
      indexed = keys;
      log2 = log2;
      last = last;
      book_ok = record { cur = omega arith; marks = refl; held = λ i h. none_below i h };
      marks =
          subst (HasMarks items 0) (sym (offsets items.is_variable typed))
            (no_marks items items.is_variable refl);
      last_offset = λ i h. absurd (omega (arith, h));
    }
  where
    none_below : (i : ℕ) → i < 0 → HoldsKey bloom_book_create (items.key i) i
    none_below i h = let absurdity : ⊥ = omega arith in elim absurdity [ ]

marked-eq :
    (cache : ArrayCache) (i : ℕ)
    → cache.cache_log2_n_keys_per_mark ≡ 5
    → array_index_is_marked cache (pos i) ≡ (0 == i % 32)
unfolding array_index_is_marked
marked-eq cache i e = ap (λ (k : ℕ). 0 == bit_and i (2 ^ k - 1)) e ∙ (rw (bit_and-mask 5 i) refl)

-- The marks of a book that holds c items, before the key of the next one is inserted.
abbrev next_book : ℕ → Book → Book
next_book c book = if 0 == c % 32 then bloom_book_add_mark book else book

pages-IsOpen :
    (book : Book)
    → book.cur_page_mark < 64
    → 65 ≤ book.n_pages * 64 + book.cur_page_mark + 1
    → IsOpen book
pages-IsOpen book cur h = record { pages = omega arith; cur = cur }

next_book-marks :
    (key : ℕ → Value) (c : ℕ) (book : Book)
    → IsBookOf key c book
    → ((next_book c book).cur_page_mark < 64)
      × ((next_book c book).n_pages * 64 + (next_book c book).cur_page_mark ≡ 64 + c / 32)
unfolding bloom_book_add_mark
next_book-marks key c book v = let cur = v.cur in let marks = v.marks in ground arith

next_book-held :
    (key : ℕ → Value) (c : ℕ) (book : Book)
    → IsBookOf key c book
    → (i : ℕ) → i < c
    → HoldsKey (next_book c book) (key i) i
unfolding change
next_book-held key c book v i h =
    let marks = v.marks in
    let open_book = pages-IsOpen book v.cur (omega arith) in
    elim (Bool-cases (0 == c % 32)) [
      | inl start ↦ rw start (
          change-HasMark new_mark book (hash_bloom_mask (hash_of (key i)))
            (hash_prefix (hash_of (key i))) (i / 32 / 64) (i / 32 % 64) open_book (v.held i h))
      | inr within ↦ rw within (v.held i h)
    ]

HasMark-moved :
    (book : Book) (mask prefix page page' mark mark' : ℕ)
    → page ≡ page'
    → mark ≡ mark'
    → HasMark book mask prefix page mark
    → HasMark book mask prefix page' mark'
HasMark-moved book mask prefix page page' mark mark' e e' h =
    subst (λ (q : ℕ). HasMark book mask prefix q mark') e
      (subst (λ (m : ℕ). HasMark book mask prefix page m) e' h)

insert-IsBookOf :
    (key : ℕ → Value) (c : ℕ) (book : Book)
    → IsBookOf key c book
    → IsBookOf key
        (suc c)
        (bloom_book_insert_word (expr_value_to_hashable (key c)) (next_book c book))
unfolding change bloom_book_insert_word bloom_book_insert_hash insert_in_level
insert-IsBookOf key c book v =
    let (cur, marks) = next_book-marks key c book v in
    let opened = pages-IsOpen (next_book c book) cur (omega arith) in
    record {
      cur = cur;
      marks = omega arith;
      held = λ i h. elim (Bool-cases (i == c)) [
        | inl here ↦
            let same : i ≡ c = ground arith in
            subst
              (λ (j : ℕ).
                HoldsKey
                  (bloom_book_insert_word (expr_value_to_hashable (key c)) (next_book c book))
                  (key j) j)
              (sym same)
              (HasMark-moved
                (bloom_book_insert_word (expr_value_to_hashable (key c)) (next_book c book))
                (hash_bloom_mask (hash_of (key c))) (hash_prefix (hash_of (key c)))
                ((next_book c book).n_pages - 1) (c / 32 / 64) (next_book c book).cur_page_mark
                (c / 32 % 64) (omega arith) (omega arith)
                (insert-HasMark (hash_of (key c)) (next_book c book) opened))
        | inr earlier ↦
            change-HasMark (new_word (expr_value_to_hashable (key c))) (next_book c book)
              (hash_bloom_mask (hash_of (key i))) (hash_prefix (hash_of (key i))) (i / 32 / 64)
              (i / 32 % 64) opened (next_book-held key c book v i (ground arith))
      ];
    }

added-marks :
    (c : ℕ) (item_key : Value) (s : State)
    → array_index_is_marked s.cache (pos c) ≡ (0 == c % 32)
    → s.tk.cur ≡ path_array (pos c)
    → (tracker_index_cache_add_item item_key s).cache.mark_offsets ≡ (
        if 0 == c % 32
        then array_add_mark_offset s.tk.item_offset s.cache.mark_offsets
        else s.cache.mark_offsets)
unfolding tracker_index_cache_add_item add_mark insert_key
added-marks c item_key s marked cur = ground arith

pub add_item-IsCoherent :
    (items : Contents) (c : ℕ) (s : State)
    → IsCoherent items c s.cache
    → IsAt items c s.tk
    → IsCoherent items (suc c) (tracker_index_cache_add_item (items.key c) s).cache
unfolding tracker_index_cache_add_item add_mark insert_key
add_item-IsCoherent items c s v place =
    let marked = marked-eq s.cache c v.log2 in
    let e = place.cur in
    record {
      book = bloom_book_insert_word (expr_value_to_hashable (items.key c)) (next_book c v.book);
      indexed = let keys = v.indexed in ground arith;
      log2 = let log2 = v.log2 in ground arith;
      last = ground arith;
      book_ok = insert-IsBookOf items.key c v.book v.book_ok;
      marks = subst (HasMarks items (suc c)) (sym (added-marks c (items.key c) s marked e)) (
          next-HasMarks items c s.cache.mark_offsets s.tk.item_offset (0 == c % 32) refl
            place.offset v.marks);
      last_offset =
          λ i same. let here : c ≡ i = omega (arith, same) in place.offset ∙ ap items.offset here;
    }
