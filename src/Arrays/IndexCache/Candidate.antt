-- ===== src/Arrays/IndexCache/Candidate.antt =====
-- The next mark that the book of keys leads to: no item with the key is passed over.
use mathlib.Core.Path.{subst}
use bitpunch.Base.{
  ℕ, zero, suc, ◌+◌, ◌*◌, ◌/◌, ◌%◌, ◌≤◌, ◌<◌, ◌≡◌, ◌≢◌, ◌∙◌, refl, sym, ap, ◌⊎◌, inl, inr, arith,
  false, leb, none, some,
}
use bitpunch.Expr.Values.{Value}
use bitpunch.Utils.Bloom.{
  Book, Cookie, Place, before_first, at_mark, no_more, place_of, hash_bloom_mask, hash_prefix,
  bloom_book_get_cookie_mark,
}
use bitpunch.Utils.Bloom.Query.{
  bloom_book_lookup_word, bloom_book_lookup_word_get_next_candidate,
  bloom_book_lookup_word_from_mark,
}
use bitpunch.Utils.Bloom.Lookup.{IsFound, IsPlace, first_behind, lookup-at}
use bitpunch.Utils.Bloom.Words.{start_place, start-suc, start-eq}
use bitpunch.Utils.Bloom.Bounds.{IsPlaceIn, lookup-bounds}
use bitpunch.Arrays.IndexCache.{expr_value_to_hashable}
use bitpunch.Arrays.IndexCache.Coherent.{IsBookOf, HoldsKey, hash_of}

-- The cookie of a search for the wanted key.
abbrev pub cookie_at : Value → Place → Cookie
cookie_at wanted place = record {
  h_bloom_mask = hash_bloom_mask (hash_of wanted);
  h_prefix = hash_prefix (hash_of wanted);
  place = place;
}

module _ (key : ℕ → Value) (wanted : Value) (c : ℕ) (book : Book) (v : IsBookOf key c book) where
  -- No item with the key stands behind the marks from `lo` on and before `hi`.
  abbrev HasNone : ℕ → ℕ → Type 0
  HasNone lo hi = (i : ℕ) → lo * 32 ≤ i → i < hi * 32 → i < c → key i ≢ wanted

  place-IsPlace : (place : Place) → IsPlaceIn book place → IsPlace place
  place-IsPlace before_first h = tt
  place-IsPlace (at_mark page mark) h = h.0
  place-IsPlace no_more h = h

  -- An item with the key stops the search at its mark or earlier.
  item-IsFound :
      (place : Place) (i : ℕ)
      → IsPlaceIn book place
      → first_behind place * 32 ≤ i
      → i < c
      → key i ≡ wanted
      → IsFound (bloom_book_lookup_word book (cookie_at wanted place)) (first_behind place) (i / 32)
  item-IsFound place i placed behind inside same =
      let held = subst (λ (k : Value). HoldsKey book k i) same (v.held i inside) in
      let found =
        lookup-at place book (cookie_at wanted place) (i / 32 / 64) (i / 32 % 64) refl v.cur held
          (place-IsPlace place placed) (omega arith) in
      record {
        page = found.page;
        mark = found.mark;
        here = found.here;
        from = found.from;
        to = omega (arith, found.to);
      }

  -- The mark of the next candidate, or the end of the search.
  pub record IsCandidate (place : Place) (m : ℕ) : Type 0 where
    pub candidate :
        bloom_book_lookup_word_get_next_candidate book (cookie_at wanted place)
        ≡ (some m, cookie_at wanted (at_mark (m / 64) (m % 64)))
    pub behind : first_behind place ≤ m
    pub held : m * 32 < c
    pub placed : IsPlaceIn book (at_mark (m / 64) (m % 64))
    pub passed : HasNone (first_behind place) m

  pub record IsExhausted (place : Place) : Type 0 where
    pub end : (bloom_book_lookup_word_get_next_candidate book (cookie_at wanted place)).0 ≡ none
    pub absent : (i : ℕ) → first_behind place * 32 ≤ i → i < c → key i ≢ wanted

  pub lookup_cases :
      (place : Place) → IsPlaceIn book place → ((m : ℕ) × IsCandidate place m) ⊎ IsExhausted place
  unfolding bloom_book_lookup_word_get_next_candidate bloom_book_get_cookie_mark
  lookup_cases place placed = go (bloom_book_lookup_word book (cookie_at wanted place)) refl
    where
      never :
          (place' : Place)
          → bloom_book_lookup_word book (cookie_at wanted place) ≡ place'
          → ((page mark : ℕ) → place' ≢ at_mark page mark)
          → (i : ℕ) → first_behind place * 32 ≤ i
          → i < c
          → key i ≢ wanted
      never place' e other i behind inside same =
          let found = item-IsFound place i placed behind inside same in
          other found.page found.mark (sym e ∙ found.here)

      go :
          (place' : Place)
          → bloom_book_lookup_word book (cookie_at wanted place) ≡ place'
          → ((m : ℕ) × IsCandidate place m) ⊎ IsExhausted place
      go before_first e =
          inr (record { end = ground arith; absent = never before_first e (λ page mark same. cc) })
      go no_more e =
          inr (record { end = ground arith; absent = never no_more e (λ page mark same. cc) })
      go (at_mark page mark) e =
          let (behind, place_in) =
            lookup-bounds place book (cookie_at wanted place) page mark refl v.cur placed e in
          let (small, inside) = place_in in
          let marks = v.marks in
          let page_eq : (page * 64 + mark) / 64 ≡ page = omega arith in
          let mark_eq : (page * 64 + mark) % 64 ≡ mark = omega arith in
          inl (
            page * 64 + mark,
            record {
              candidate =
                  ap
                    (λ place'. (
                      bloom_book_get_cookie_mark (cookie_at wanted place'),
                      cookie_at wanted place',
                    ))
                    e
                  ∙ (rw (page_eq, mark_eq) refl);
              behind = behind;
              held = omega arith;
              placed = (omega arith, omega arith);
              passed = λ i from to within same.
                  let found = item-IsFound place i placed from within same in
                  let one : at_mark page mark ≡ at_mark found.page found.mark =
                    sym e ∙ found.here in
                  let to_i = found.to in let absurdity : ⊥ = ground arith in elim absurdity [ ];
            },
          )

-- A search from a mark starts behind the marks before it.
pub start-IsPlaceIn :
    (key : ℕ → Value) (c : ℕ) (book : Book) (from : ℕ)
    → IsBookOf key c book
    → from * 32 ≤ c
    → IsPlaceIn book (start_place book from) × (first_behind (start_place book from) ≡ from)
unfolding place_of
start-IsPlaceIn key c book zero v le = (tt, refl)
start-IsPlaceIn key c book (suc f) v le =
    let cur = v.cur in
    let marks = v.marks in
    let on_page : leb book.n_pages (f / 64) ≡ false = ground arith in
    subst (λ (p : Place). IsPlaceIn book p × (first_behind p ≡ suc f))
      (sym (start-suc book f on_page)) ((omega arith, omega arith), omega arith)

pub lookup-cookie :
    (book : Book) (wanted : Value) (from : ℕ)
    → bloom_book_lookup_word_from_mark book (expr_value_to_hashable wanted) (some from)
      ≡ cookie_at wanted (start_place book from)
lookup-cookie book wanted from = start-eq book (expr_value_to_hashable wanted) from

pub mark-IsPlaceIn :
    (key : ℕ → Value) (c : ℕ) (book : Book) (m : ℕ)
    → IsBookOf key c book
    → m * 32 < c
    → IsPlaceIn book (at_mark (m / 64) (m % 64))
mark-IsPlaceIn key c book m v held = let marks = v.marks in (omega arith, omega arith)
