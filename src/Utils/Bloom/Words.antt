-- ===== src/Utils/Bloom/Words.antt =====
-- No false negatives: a word that was inserted behind a mark is looked for behind that mark.
use bitpunch.Base.{
  ℕ, zero, suc, ◌+◌, ◌-◌, ◌*◌, ◌/◌, ◌%◌, ◌≤◌, ◌<◌, ◌≡◌, refl, sym, arith, false, ◌==◌, leb,
  if◌then◌else◌, none, some, List, [], ◌∷◌,
}
use mathlib.Core.Path.{subst}
use bitpunch.Utils.Bloom.{
  PageLevel, level_0, level_1, Book, Cookie, Place, at_mark, mark_of, bloom_book_create,
  bloom_book_add_mark, insert_in_level, bloom_book_insert_hash, bloom_book_insert_word,
  hash_word_djb2_64bit, hash_bloom_mask, hash_prefix, get_page_mark_bloom_idx_in_level, place_of,
  bloom_book_get_cookie_mark,
}
use bitpunch.Utils.Bloom.Query.{
  bloom_book_lookup_word, bloom_book_lookup_word_from_mark,
  bloom_book_lookup_word_get_next_candidate,
}
use bitpunch.Utils.Bloom.Search.{IsMarked}
use bitpunch.Utils.Bloom.Lookup.{HasMark, IsPlace, first_behind, lookup-at}
use bitpunch.Utils.Bloom.Marking.{IsOpen, insert-HasMark, level-keeps}

-- What a client does with a book.
pub data Change : Type 0 where
  new_mark : Change
  new_word : List ℕ → Change

unfoldable pub change : Change → Book → Book
change new_mark = bloom_book_add_mark
change (new_word word) = bloom_book_insert_word word

unfoldable pub changes : List Change → Book → Book
changes [] book = book
changes (c ∷ cs) book = changes cs (change c book)

change-IsOpen : (c : Change) (book : Book) → IsOpen book → IsOpen (change c book)
unfolding change bloom_book_add_mark bloom_book_insert_word bloom_book_insert_hash insert_in_level
change-IsOpen new_mark book v = ground arith
change-IsOpen (new_word word) book v = record { pages = v.pages; cur = v.cur }

add_mark-HasMark :
    (book : Book) (mask prefix page m : ℕ)
    → IsOpen book
    → HasMark book mask prefix page m
    → HasMark (bloom_book_add_mark book) mask prefix page m
unfolding bloom_book_add_mark
add_mark-HasMark book mask prefix page m v at =
    let inside = at.page_in in
    let fits = at.mark_in in
    let marked_1 = at.at_1 in
    let marked_0 = at.at_0 in
    let small = at.small in
    record {
      page_in = ground arith;
      mark_in = ground arith;
      small = small;
      at_1 = ground arith;
      at_0 = ground arith;
    }

pub change-HasMark :
    (c : Change) (book : Book) (mask prefix page m : ℕ)
    → IsOpen book
    → HasMark book mask prefix page m
    → HasMark (change c book) mask prefix page m
unfolding change bloom_book_insert_word bloom_book_insert_hash
change-HasMark new_mark book mask prefix page m v at = add_mark-HasMark book mask prefix page m v at
change-HasMark (new_word word) book mask prefix page m v at =
    let h = hash_word_djb2_64bit word in
    let idx_of = λ (level : PageLevel). get_page_mark_bloom_idx_in_level level m prefix in
    let kept = λ (level : PageLevel) (e : IsMarked book mask prefix level page m).
      level-keeps level_1 h (insert_in_level level_0 h book) mask page level (idx_of level)
        (level-keeps level_0 h book mask page level (idx_of level) e) in
    record {
      page_in = at.page_in;
      mark_in = at.mark_in;
      small = at.small;
      at_1 = kept level_1 at.at_1;
      at_0 = kept level_0 at.at_0;
    }

changes-HasMark :
    (cs : List Change) (book : Book) (mask prefix page m : ℕ)
    → IsOpen book
    → HasMark book mask prefix page m
    → IsOpen (changes cs book) × HasMark (changes cs book) mask prefix page m
unfolding changes
changes-HasMark [] book mask prefix page m v at = (v, at)
changes-HasMark (c ∷ cs) book mask prefix page m v at =
    changes-HasMark cs (change c book) mask prefix page m (change-IsOpen c book v)
      (change-HasMark c book mask prefix page m v at)

changes-IsOpen : (cs : List Change) (book : Book) → IsOpen book → IsOpen (changes cs book)
unfolding changes
changes-IsOpen [] book v = v
changes-IsOpen (c ∷ cs) book v = changes-IsOpen cs (change c book) (change-IsOpen c book v)

-- A book with its first mark.
abbrev pub first_book : Book
first_book = bloom_book_add_mark bloom_book_create

first-IsOpen : IsOpen first_book
unfolding bloom_book_add_mark bloom_book_create
first-IsOpen = record { pages = omega arith; cur = omega arith }

-- The place that a lookup starts from.
abbrev pub start_place : Book → ℕ → Place
start_place book from = place_of book (if from == 0 then none else some (from - 1))

pub start-suc :
    (book : Book) (f : ℕ)
    → leb book.n_pages (f / 64) ≡ false
    → start_place book (suc f) ≡ at_mark (f / 64) (f % 64)
unfolding place_of
start-suc book f e = ground arith

start-behind :
    (book : Book) (from page m : ℕ)
    → page < book.n_pages
    → m < 64
    → from ≤ page * 64 + m
    → IsPlace (start_place book from) × (first_behind (start_place book from) ≡ from)
unfolding place_of
start-behind book zero page m inside small before = (tt, refl)
start-behind book (suc f) page m inside small before =
    let on_page : leb book.n_pages (f / 64) ≡ false = ground arith in
    subst (λ (p : Place). IsPlace p × (first_behind p ≡ suc f)) (sym (start-suc book f on_page))
      (omega arith, omega arith)

pub start-eq :
    (book : Book) (word : List ℕ) (from : ℕ)
    → bloom_book_lookup_word_from_mark book word (some from) ≡ record {
      h_bloom_mask = hash_bloom_mask (hash_word_djb2_64bit word);
      h_prefix = hash_prefix (hash_word_djb2_64bit word);
      place = start_place book from;
    }
unfolding bloom_book_lookup_word_from_mark
start-eq book word from = refl

candidate-at :
    (book : Book) (cookie : Cookie) (page m : ℕ)
    → bloom_book_lookup_word book cookie ≡ at_mark page m
    → (bloom_book_lookup_word_get_next_candidate book cookie).0 ≡ some (page * 64 + m)
unfolding bloom_book_lookup_word_get_next_candidate bloom_book_get_cookie_mark
candidate-at book cookie page m e = cc

-- After any changes to a new book, a word inserted at its current mark, and any further changes,
-- a lookup of the word from a mark that is not behind that one yields a candidate, which lies
-- between the two marks.
pub bloom_book_no_miss :
    (before after : List Change) (word : List ℕ) (from : ℕ)
    → from ≤ mark_of (changes before first_book)
    → let book = changes after (bloom_book_insert_word word (changes before first_book)) in
      (mark : ℕ) × ((bloom_book_lookup_word_get_next_candidate book
          (bloom_book_lookup_word_from_mark book word (some from))).0
        ≡ some mark)
      × (from ≤ mark)
      × (mark ≤ mark_of (changes before first_book))
unfolding bloom_book_insert_word change
bloom_book_no_miss before after word from le =
    let h = hash_word_djb2_64bit word in
    let old = changes before first_book in
    let opened = changes-IsOpen before first_book first-IsOpen in
    let inserted = insert-HasMark h old opened in
    let (opened', kept) =
      changes-HasMark after (bloom_book_insert_hash h old) (hash_bloom_mask h) (hash_prefix h)
        (old.n_pages - 1) old.cur_page_mark (change-IsOpen (new_word word) old opened) inserted in
    let book = changes after (bloom_book_insert_hash h old) in
    let cookie : Cookie = record {
      h_bloom_mask = hash_bloom_mask h;
      h_prefix = hash_prefix h;
      place = start_place book from;
    } in
    let (placed, behind) =
      start-behind book from (old.n_pages - 1) old.cur_page_mark kept.page_in kept.small le in
    let found =
      lookup-at (start_place book from) book cookie (old.n_pages - 1) old.cur_page_mark refl
        opened'.cur kept placed (omega (arith, behind)) in
    (
      found.page * 64 + found.mark,
      rw (start-eq book word from) (candidate-at book cookie found.page found.mark found.here),
      omega (arith, behind, found.from),
      found.to,
    )
