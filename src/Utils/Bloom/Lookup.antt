-- ===== src/Utils/Bloom/Lookup.antt =====
-- The lookup reaches every mark whose blooms contain the word's mask.
use bitpunch.Base.{
  ℕ, zero, suc, ◌+◌, ◌-◌, ◌*◌, ◌≤◌, ◌<◌, ◌≡◌, ◌⊎◌, inl, inr, refl, sym, ap, ◌∙◌, arith, ◌==◌,
  if◌then◌else◌, none, some, Option-cases, Bool-cases,
}
use bitpunch.Utils.Bloom.{level_0, level_1, Book, Cookie, Place, before_first, at_mark, no_more}
use bitpunch.Utils.Bloom.Query.{mark_behind, page_candidate, lookup_pages, bloom_book_lookup_word}
use bitpunch.Utils.Bloom.Search.{marks_in, IsMarked, page_candidate-some, page_candidate-hit}

-- A mark of the book, both of whose blooms contain the mask.
pub record HasMark (book : Book) (mask prefix page mark : ℕ) : Type 0 where
  pub page_in : page < book.n_pages
  pub mark_in : mark < marks_in book page
  pub small : mark < 64
  pub at_1 : IsMarked book mask prefix level_1 page mark
  pub at_0 : IsMarked book mask prefix level_0 page mark

-- The place is a mark between two numbers of marks.
pub record IsFound (place : Place) (least most : ℕ) : Type 0 where
  pub page : ℕ
  pub mark : ℕ
  pub here : place ≡ at_mark page mark
  pub from : least ≤ page * 64 + mark
  pub to : page * 64 + mark ≤ most

le_split : (a b : ℕ) → a ≤ b → (a < b) ⊎ (a ≡ b)
le_split a b h = ground arith

pub pages_missed :
    (book : Book) (cookie : Cookie) (left page s : ℕ)
    → page_candidate book cookie page s ≡ none
    → lookup_pages book cookie (suc left) page s ≡ lookup_pages book cookie left (page + 1) 0
unfolding lookup_pages
pages_missed book cookie left page s e = cc

pub pages_hit :
    (book : Book) (cookie : Cookie) (left page s m : ℕ)
    → page_candidate book cookie page s ≡ some m
    → lookup_pages book cookie (suc left) page s ≡ at_mark page m
unfolding lookup_pages
pages_hit book cookie left page s m e = cc

pub word_first :
    (book : Book) (cookie : Cookie)
    → cookie.place ≡ before_first
    → bloom_book_lookup_word book cookie ≡ lookup_pages book cookie book.n_pages 0 0
unfolding bloom_book_lookup_word
word_first book cookie e = cc

pub word_next :
    (book : Book) (cookie : Cookie) (page mark : ℕ)
    → cookie.place ≡ at_mark page mark
    → bloom_book_lookup_word book cookie ≡ (
        if mark + 1 == 64
        then lookup_pages book cookie (book.n_pages - (page + 1)) (page + 1) 0
        else lookup_pages book cookie (book.n_pages - page) page (mark + 1))
unfolding bloom_book_lookup_word
word_next book cookie page mark e = ground arith

pub behind_first : (place : Place) (page : ℕ) → place ≡ before_first → mark_behind place page 0 ≡ 0
unfolding mark_behind
behind_first place page e = ground arith

pub behind_here :
    (place : Place) (page mark : ℕ)
    → place ≡ at_mark page mark
    → mark_behind place page 0 ≡ mark + 1
unfolding mark_behind
behind_here place page mark e = ground arith

pub behind_later :
    (place : Place) (page mark q : ℕ)
    → place ≡ at_mark page mark
    → page < q
    → mark_behind place q 0 ≡ 0
unfolding mark_behind
behind_later place page mark q e h = ground arith

module _ (book : Book) (cookie : Cookie) (page_0 mark_0 : ℕ) (cur : book.cur_page_mark < 64)
    (target : HasMark book cookie.h_bloom_mask cookie.h_prefix page_0 mark_0) where
  inside_page :
      (page s : ℕ)
      → page ≤ page_0
      → page * 64 + s ≤ page_0 * 64 + mark_0
      → s < 64
      → s < marks_in book page
  inside_page page s le before small =
      let last = target.page_in in let fits = target.mark_in in ground arith

  -- In the target's page the candidate is no later than the target.
  target_hit :
      (page s : ℕ)
      → page ≡ page_0
      → page * 64 + s ≤ page_0 * 64 + mark_0
      → mark_behind cookie.place page 0 ≡ s
      → (m : ℕ) × (page_candidate book cookie page s ≡ some m) × (m ≤ mark_0)
  target_hit page s e before start =
      let (m, hit, le) =
        page_candidate-hit book cookie page_0 s mark_0 (omega arith) target.mark_in target.small cur
          (ap (λ (q : ℕ). mark_behind cookie.place q 0) (sym e) ∙ start) target.at_1 target.at_0 in
      (m, ap (λ (q : ℕ). page_candidate book cookie q s) e ∙ hit, le)

  hit_before :
      (page s m : ℕ)
      → page ≤ page_0
      → page * 64 + s ≤ page_0 * 64 + mark_0
      → mark_behind cookie.place page 0 ≡ s
      → m < marks_in book page
      → page_candidate book cookie page s ≡ some m
      → page * 64 + m ≤ page_0 * 64 + mark_0
  hit_before page s m le before start fits hit = elim (le_split page page_0 le) [
    | inl lt ↦ ground arith
    | inr same ↦
        let (m', hit', le') = target_hit page s same before start in
        let one : m ≡ m' = cc in omega arith
  ]

  missed_before :
      (page s : ℕ)
      → page ≤ page_0
      → page * 64 + s ≤ page_0 * 64 + mark_0
      → mark_behind cookie.place page 0 ≡ s
      → page_candidate book cookie page s ≡ none
      → page < page_0
  missed_before page s le before start missed = elim (le_split page page_0 le) [
    | inl lt ↦ lt
    | inr same ↦
        let (m', hit', le') = target_hit page s same before start in
        let absurdity : ⊥ = cc in elim absurdity [ ]
  ]

  lookup_pages-finds :
      (left page s : ℕ)
      → page + left ≡ book.n_pages
      → page ≤ page_0
      → page * 64 + s ≤ page_0 * 64 + mark_0
      → s < 64
      → mark_behind cookie.place page 0 ≡ s
      → ((q : ℕ) → page < q → mark_behind cookie.place q 0 ≡ 0)
      → IsFound (lookup_pages book cookie left page s) (page * 64 + s) (page_0 * 64 + mark_0)
  unfolding lookup_pages
  lookup_pages-finds zero page s all le before small start later =
      let last = target.page_in in let absurdity : ⊥ = omega arith in elim absurdity [ ]
  lookup_pages-finds (suc left) page s all le before small start later =
      let inside = inside_page page s le before small in
      elim (Option-cases (page_candidate book cookie page s)) [
        | inl missed ↦
            let on = missed_before page s le before start missed in
            let rest =
              lookup_pages-finds left (page + 1) 0 (omega arith) (omega arith) (omega arith)
                (omega arith) (later (page + 1) (omega arith)) (λ q h. later q (omega arith)) in
            record {
              page = rest.page;
              mark = rest.mark;
              here = pages_missed book cookie left page s missed ∙ rest.here;
              from = omega (arith, rest.from);
              to = rest.to;
            }
        | inr (m, hit) ↦
            let (lo, hi) =
              page_candidate-some book cookie page s m (omega arith) small cur start hit in
            record {
              page = page;
              mark = m;
              here = pages_hit book cookie left page s m hit;
              from = omega arith;
              to = hit_before page s m le before start hi hit;
            }
      ]

-- The number of the first mark behind a place; a place that stands at a mark stands in its page.
abbrev pub first_behind : Place → ℕ
first_behind (at_mark page mark) = page * 64 + mark + 1
first_behind _ = 0

abbrev pub IsPlace : Place → Type 0
IsPlace (at_mark page mark) = mark < 64
IsPlace before_first = Unit {0}
IsPlace no_more = ⊥

moved :
    {place place' : Place} {least least' most : ℕ}
    → place ≡ place'
    → least ≡ least'
    → IsFound place' least' most
    → IsFound place least most
moved e l f = record {
  page = f.page;
  mark = f.mark;
  here = e ∙ f.here;
  from = omega (arith, f.from);
  to = f.to;
}

pub lookup-at :
    (place : Place) (book : Book) (cookie : Cookie) (page_0 mark_0 : ℕ)
    → cookie.place ≡ place
    → book.cur_page_mark < 64
    → HasMark book cookie.h_bloom_mask cookie.h_prefix page_0 mark_0
    → IsPlace place
    → first_behind place ≤ page_0 * 64 + mark_0
    → IsFound (bloom_book_lookup_word book cookie) (first_behind place) (page_0 * 64 + mark_0)
lookup-at before_first book cookie page_0 mark_0 e cur target w before =
    moved (word_first book cookie e) (omega arith) (
      lookup_pages-finds book cookie page_0 mark_0 cur target book.n_pages 0 0 (omega arith)
        (omega arith) (omega arith) (omega arith) (behind_first cookie.place 0 e)
        (λ q h. behind_first cookie.place q e))
lookup-at (at_mark page mark) book cookie page_0 mark_0 e cur target w before =
    let page_in = target.page_in in
    let small = target.small in
    elim (Bool-cases (mark + 1 == 64)) [
      | inl last ↦
          let end : mark + 1 ≡ 64 = ground arith in
          moved (word_next book cookie page mark e ∙ (rw last refl)) (omega arith) (
            lookup_pages-finds book cookie page_0 mark_0 cur target (book.n_pages - (page + 1))
              (page + 1) 0 (omega arith) (omega arith) (omega arith) (omega arith)
              (behind_later cookie.place page mark (page + 1) e (omega arith))
              (λ q h. behind_later cookie.place page mark q e (omega arith)))
      | inr within ↦
          let more : mark + 1 < 64 = ground arith in
          moved (word_next book cookie page mark e ∙ (rw within refl)) (omega arith) (
            lookup_pages-finds book cookie page_0 mark_0 cur target (book.n_pages - page) page
              (mark + 1) (omega arith) (omega arith) (omega arith) (omega arith)
              (behind_here cookie.place page mark e)
              (λ q h. behind_later cookie.place page mark q e h))
    ]
lookup-at no_more book cookie page_0 mark_0 e cur target w before = elim w [ ]
