-- ===== src/Arrays/IndexCache/LookupFinds.antt =====
-- The lookup of a key among the cached items, from an item on.
use mathlib.Core.Path.{subst}
use bitpunch.Base.{
  ℕ, ◌*◌, ◌/◌, ◌%◌, ◌^◌, ◌≤◌, ◌<◌, ◌≡◌, ◌∙◌, refl, sym, ap, ◌⊎◌, inl, inr, arith, true, false,
  Option, none, some,
}
use bitpunch.Base.Int.{pos}
use bitpunch.Status.{Result, ok, err, no_item}
use bitpunch.Expr.Values.{Value}
use bitpunch.Browse.Box.{unset}
use bitpunch.Arrays.Tracker.{Tracker, path_array_slice, track_path_eq}
use bitpunch.Utils.Bloom.{Book, Cookie, at_mark, bloom_book_create}
use bitpunch.Utils.Bloom.Query.{
  bloom_book_lookup_word_get_next_candidate, bloom_book_lookup_word_from_mark,
}
use bitpunch.Utils.Bloom.Words.{start_place}
use bitpunch.Arrays.IndexCache.{Items, State, book_of, expr_value_to_hashable, array_get_index_mark}
use bitpunch.Arrays.IndexCache.Twins.{
  TwinIterator, Twins, next_candidate, goto_candidate, box_index_cache_lookup_key_twins,
  index_cache_iterator_next_twin,
}
use bitpunch.Arrays.IndexCache.Placed.{Contents, IsAt}
use bitpunch.Arrays.IndexCache.Coherent.{IsCoherent}
use bitpunch.Arrays.IndexCache.GotoMark.{goto_mark-place}
use bitpunch.Arrays.IndexCache.Searched.{IsIndexed, IsAbsent}
use bitpunch.Arrays.IndexCache.TwinFinds.{twin_loop-searches}
use bitpunch.Arrays.IndexCache.TwinLookup.{twins_at, HasLookedUp}
use bitpunch.Arrays.IndexCache.Candidate.{cookie_at, lookup_cases, start-IsPlaceIn, lookup-cookie}

module _ (a : Items) (n : ℕ) (items : Contents) (wanted : Value) (v : IsIndexed a n items wanted)
    (start : ℕ) where
  -- The iterator before the first candidate is asked for.
  abbrev first_iter : Cookie → Option ℕ → TwinIterator
  first_iter cookie mark = record {
    bloom_cookie = cookie;
    key = wanted;
    mark = mark;
    in_slice_path = path_array_slice (pos start) unset;
    from_mark = some (start / 32);
    first = true;
  }

  lookup-eq :
      (c : ℕ) (at : State) (w : IsCoherent items c at.cache) (mark : Option ℕ) (cookie : Cookie)
      → bloom_book_lookup_word_get_next_candidate w.book
          (cookie_at wanted (start_place w.book (start / 32)))
        ≡ (mark, cookie)
      → box_index_cache_lookup_key_twins a wanted (path_array_slice (pos start) unset) at
        ≡ goto_candidate a (record { iter = first_iter cookie mark; at = at })
  unfolding box_index_cache_lookup_key_twins next_candidate array_get_index_mark track_path_eq
  lookup-eq c at w mark cookie e =
      let word = expr_value_to_hashable wanted in
      let book_eq : book_of at.cache ≡ w.book =
        ap (λ (o : Option Book). elim o [ some book ↦ book | none ↦ bloom_book_create ])
          w.indexed in
      let with_cookie = λ (p : Option ℕ × Cookie).
        goto_candidate a (record { iter = first_iter p.1 p.0; at = at }) in
      ap
        (λ (k : ℕ). goto_candidate a (
          next_candidate (record {
            iter =
                record (first_iter
                  (bloom_book_lookup_word_from_mark (book_of at.cache) word (some (start / 2 ^ k)))
                  none) { from_mark = some (start / 2 ^ k) };
            at = at;
          })))
        w.log2
      ∙ ap
          (λ (book : Book). with_cookie (
            bloom_book_lookup_word_get_next_candidate book
              (bloom_book_lookup_word_from_mark book word (some (start / 32)))))
          book_eq
      ∙ ap (λ (ck : Cookie). with_cookie (bloom_book_lookup_word_get_next_candidate w.book ck))
          (lookup-cookie w.book wanted (start / 32))
      ∙ ap with_cookie e

  -- The iterator stands at a mark, or has none to go to.
  pub record IsStarted (c : ℕ) (at : State) (m : ℕ) : Type 0 where
    pub tk : Tracker
    pub started :
        box_index_cache_lookup_key_twins a wanted (path_array_slice (pos start) unset) at ≡ (
          ok tt,
          twins_at a n items wanted v start m
              (some (start / 32))
              true
              (record { tk = tk; cache = at.cache }),
        )
    pub place : IsAt items (m * 32) tk
    pub held : m * 32 < c
    pub behind : start / 32 ≤ m
    pub passed : IsAbsent n items wanted start (m * 32)

  pub record IsEmpty (c : ℕ) (at : State) : Type 0 where
    pub t : Twins
    pub ended :
        box_index_cache_lookup_key_twins a wanted (path_array_slice (pos start) unset) at
        ≡ (ok tt, t)
    pub no_mark : t.iter.mark ≡ none
    pub same : t.at ≡ at
    pub absent : IsAbsent n items wanted start c

  pub lookup-starts :
      (c : ℕ) (at : State)
      → IsCoherent items c at.cache
      → start ≤ c
      → at.tk.reversed ≡ false
      → ((m : ℕ) × IsStarted c at m) ⊎ IsEmpty c at
  lookup-starts c at w le forward =
      let (placed, behind) =
        start-IsPlaceIn items.key c w.book (start / 32) w.book_ok (omega arith) in
      let here = start_place w.book (start / 32) in
      elim (lookup_cases items.key wanted c w.book w.book_ok here placed) [
        | inl (m, next) ↦
            let (tk, gone, place) = goto_mark-place a n items wanted v m c at w next.held forward in
            inl (
              m,
              record {
                tk = tk;
                started =
                    lookup-eq c at w (some m) (cookie_at wanted (at_mark (m / 64) (m % 64)))
                      next.candidate
                    ∙ ap
                        (λ (p : Result (Unit {0}) × State). (
                          p.0,
                          record {
                            iter =
                                first_iter (cookie_at wanted (at_mark (m / 64) (m % 64))) (some m);
                            at = p.1;
                          },
                        ))
                        gone;
                place = place;
                held = next.held;
                behind = omega (arith, next.behind);
                passed =
                    λ i from to inside. next.passed i (omega arith) to (omega (arith, next.held));
              },
            )
        | inr end ↦ inr (record {
          t = _;
          ended =
              lookup-eq c at w none
                (bloom_book_lookup_word_get_next_candidate w.book (cookie_at wanted here)).1
                (ap
                  (λ (o : Option ℕ). (
                    o,
                    (bloom_book_lookup_word_get_next_candidate w.book (cookie_at wanted here)).1,
                  ))
                  end.end);
          no_mark = refl;
          same = refl;
          absent = λ i from to inside. end.absent i (omega arith) to;
        })
      ]

  next-of-none :
      (t : Twins) → t.iter.mark ≡ none → index_cache_iterator_next_twin a t ≡ (err no_item, t)
  unfolding index_cache_iterator_next_twin
  next-of-none t e = cc

  -- The first twin, with the cache as it was for the lookup.
  pub first_twin-searches :
      (c : ℕ) (at : State)
      → IsCoherent items c at.cache
      → c ≤ n
      → start ≤ c
      → at.tk.reversed ≡ false
      → let (r, t) =
          box_index_cache_lookup_key_twins a wanted (path_array_slice (pos start) unset) at in
        (r ≡ ok tt)
        × HasLookedUp a n items wanted v start start c (index_cache_iterator_next_twin a t)
  unfolding index_cache_iterator_next_twin
  first_twin-searches c at w most le forward = elim (lookup-starts c at w le forward) [
    | inl (m, begun) ↦
        let held = begun.held in
        let behind = begun.behind in
        let rounds = v.rounds in
        subst
          (λ (p : Result (Unit {0}) × Twins).
            (p.0 ≡ ok tt)
            × HasLookedUp a n items wanted v start start c (index_cache_iterator_next_twin a p.1))
          (sym begun.started)
          (
            refl,
            twin_loop-searches a n items wanted v start a.max_rounds m (m * 32) start c
                (some (start / 32)) true (record { tk = begun.tk; cache = at.cache }) (omega arith)
                (omega arith) most (omega arith) held (omega arith) w begun.place begun.passed
                (λ same. let same_m : m ≡ start / 32 = ground arith in (omega arith, refl))
                (λ other. ground arith) (λ m' next. (ground arith, omega arith)),
          )
    | inr none_there ↦
        subst
          (λ (p : Result (Unit {0}) × Twins).
            (p.0 ≡ ok tt)
            × HasLookedUp a n items wanted v start start c (index_cache_iterator_next_twin a p.1))
          (sym none_there.ended)
          (
            refl,
            subst (HasLookedUp a n items wanted v start start c)
                (sym (next-of-none none_there.t none_there.no_mark))
                (inr (record {
                  none_found = refl;
                  grown = record {
                    count = c;
                    least = omega arith;
                    most = most;
                    coherent =
                        subst (λ (s : State). IsCoherent items c s.cache) (sym none_there.same) w;
                  };
                  absent = none_there.absent;
                })),
          )
  ]
