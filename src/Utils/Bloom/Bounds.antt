-- ===== src/Utils/Bloom/Bounds.antt =====
-- A candidate is a mark of the book behind the one that the search comes from.
use bitpunch.Base.{
  ℕ, zero, suc, ◌+◌, ◌-◌, ◌*◌, ◌≤◌, ◌<◌, ◌≡◌, inl, inr, refl, sym, ◌∙◌, arith, ◌==◌, Option-cases,
  Bool-cases,
}
use bitpunch.Utils.Bloom.{Book, Cookie, Place, before_first, at_mark, no_more}
use bitpunch.Utils.Bloom.Query.{mark_behind, page_candidate, lookup_pages, bloom_book_lookup_word}
use bitpunch.Utils.Bloom.Search.{marks_in, page_candidate-some}
use bitpunch.Utils.Bloom.Lookup.{
  first_behind, pages_missed, pages_hit, word_first, word_next, behind_first, behind_here,
  behind_later,
}

-- A place in the book.
abbrev pub IsPlaceIn : Book → Place → Type 0
IsPlaceIn book (at_mark page mark) =
    (mark < 64) × (page * 64 + mark + 64 ≤ book.n_pages * 64 + book.cur_page_mark)
IsPlaceIn book before_first = Unit {0}
IsPlaceIn book no_more = ⊥

module _ (book : Book) (cookie : Cookie) (cur : book.cur_page_mark < 64) where
  lookup_pages-bounds :
      (left page s p m : ℕ)
      → page + left ≡ book.n_pages
      → s ≤ marks_in book page
      → s < 64
      → mark_behind cookie.place page 0 ≡ s
      → ((q : ℕ) → page < q → mark_behind cookie.place q 0 ≡ 0)
      → lookup_pages book cookie left page s ≡ at_mark p m
      → (page * 64 + s ≤ p * 64 + m) × IsPlaceIn book (at_mark p m)
  unfolding lookup_pages
  lookup_pages-bounds zero page s p m all inside small start later e = ground arith
  lookup_pages-bounds (suc left) page s p m all inside small start later e =
      elim (Option-cases (page_candidate book cookie page s)) [
        | inl missed ↦
            let (lo, hi) =
              lookup_pages-bounds left (page + 1) 0 p m (omega arith) (omega arith) (omega arith)
                (later (page + 1) (omega arith)) (λ q h. later q (omega arith))
                (sym (pages_missed book cookie left page s missed) ∙ e) in
            (omega arith, hi)
        | inr (m', hit) ↦
            let (lo, hi) = page_candidate-some book cookie page s m' inside small cur start hit in
            let found : at_mark page m' ≡ at_mark p m =
              sym (pages_hit book cookie left page s m' hit) ∙ e in
            ground arith
      ]

pub lookup-bounds :
    (place : Place) (book : Book) (cookie : Cookie) (p m : ℕ)
    → cookie.place ≡ place
    → book.cur_page_mark < 64
    → IsPlaceIn book place
    → bloom_book_lookup_word book cookie ≡ at_mark p m
    → (first_behind place ≤ p * 64 + m) × IsPlaceIn book (at_mark p m)
lookup-bounds before_first book cookie p m e cur w found =
    let (lo, hi) =
      lookup_pages-bounds book cookie cur book.n_pages 0 0 p m (omega arith) (omega arith)
        (omega arith) (behind_first cookie.place 0 e) (λ q h. behind_first cookie.place q e)
        (sym (word_first book cookie e) ∙ found) in
    (omega arith, hi)
lookup-bounds (at_mark page mark) book cookie p m e cur w found =
    let (small, inside) = w in
    let next = word_next book cookie page mark e in
    elim (Bool-cases (mark + 1 == 64)) [
      | inl last ↦
          let end : mark + 1 ≡ 64 = ground arith in
          let (lo, hi) =
            lookup_pages-bounds book cookie cur (book.n_pages - (page + 1)) (page + 1) 0 p m
              (omega arith) (omega arith) (omega arith)
              (behind_later cookie.place page mark (page + 1) e (omega arith))
              (λ q h. behind_later cookie.place page mark q e (omega arith))
              (sym (next ∙ (rw last refl)) ∙ found) in
          (omega arith, hi)
      | inr within ↦
          let more : mark + 1 < 64 = ground arith in
          let fits : mark + 1 ≤ marks_in book page = ground arith in
          let (lo, hi) =
            lookup_pages-bounds book cookie cur (book.n_pages - page) page (mark + 1) p m
              (omega arith) fits more (behind_here cookie.place page mark e)
              (λ q h. behind_later cookie.place page mark q e h)
              (sym (next ∙ (rw within refl)) ∙ found) in
          (omega arith, hi)
    ]
lookup-bounds no_more book cookie p m e cur w found = elim w [ ]
