-- ===== src/Arrays/IndexCache/MarkFinds.antt =====
-- The search behind one mark, from a start that may lie behind the mark.
use mathlib.Core.Path.{subst}
use bitpunch.Base.{
  ℕ, zero, suc, ◌+◌, ◌*◌, ◌/◌, ◌%◌, ◌≤◌, ◌<◌, ◌≡◌, ◌∙◌, refl, sym, ap, inl, inr, arith, Bool, true,
  false, ltb, if◌then◌else◌, Option, some, Bool-cases,
}
use bitpunch.Base.Int.{pos, ltb_ℤ}
use bitpunch.Status.{Result, ok}
use bitpunch.Expr.Values.{Value}
use bitpunch.Browse.Box.{unset}
use bitpunch.Arrays.Tracker.{path_array, path_index, path_array_slice}
use bitpunch.Utils.Bloom.{at_mark}
use bitpunch.Arrays.IndexCache.{Items, State, andthen, go_next, index_of}
use bitpunch.Arrays.IndexCache.Match.{tracker_goto_next_key_match__array}
use bitpunch.Arrays.IndexCache.Twins.{
  TwinIterator, tracker_goto_next_key_match_in_mark, skip_initial, find_behind_mark, same_mark,
}
use bitpunch.Arrays.IndexCache.Placed.{Contents, IsAt}
use bitpunch.Arrays.IndexCache.Coherent.{IsCoherent}
use bitpunch.Arrays.IndexCache.Searched.{
  IsIndexed, IsAbsent, HasSearched, search-earlier, empty_range, next-searches,
}
use bitpunch.Arrays.IndexCache.GotoMark.{mark_start}
use bitpunch.Arrays.IndexCache.MatchFinds.{match-searches}
use bitpunch.Arrays.IndexCache.Candidate.{cookie_at}

module _ (a : Items) (n : ℕ) (items : Contents) (wanted : Value) (v : IsIndexed a n items wanted)
    (start : ℕ) where
  -- The iterator of a search from an item on, at a mark.
  abbrev pub iter_at : ℕ → Option ℕ → Bool → TwinIterator
  iter_at m from first = record {
    bloom_cookie = cookie_at wanted (at_mark (m / 64) (m % 64));
    key = wanted;
    mark = some m;
    in_slice_path = path_array_slice (pos start) unset;
    from_mark = from;
    first = first;
  }

  in_mark-searches :
      (m i c : ℕ) (s : State)
      → i ≤ c
      → c ≤ n
      → i < n
      → i ≤ (m + 1) * 32
      → IsCoherent items c s.cache
      → IsAt items i s.tk
      → HasSearched n items wanted i
          ((m + 1) * 32)
          c
          (tracker_goto_next_key_match_in_mark a wanted m s)
  unfolding tracker_goto_next_key_match_in_mark
  in_mark-searches m i c s le most inside before_e w place =
      subst
        (λ index.
          HasSearched n items wanted i ((m + 1) * 32) c
            (tracker_goto_next_key_match__array a wanted (path_array index) s))
        (sym (mark_start s.cache (m + 1) w.log2))
        (match-searches a n items wanted v ((m + 1) * 32) i c s le most inside before_e w place)

  skip_initial-searches :
      (left m i c : ℕ) (r : Result (Unit {0}) × State)
      → 0 < left
      → n < i + left
      → i ≤ start
      → HasSearched n items wanted i ((m + 1) * 32) c r
      → HasSearched n items wanted start
          ((m + 1) * 32)
          c
          (skip_initial a wanted m (pos start) left r)
  unfolding skip_initial
  skip_initial-searches zero m i c r some_left enough le found =
      let absurdity : ⊥ = omega arith in elim absurdity [ ]
  skip_initial-searches (suc left) m i c (r, s) some_left enough le (inr miss) =
      subst
        (λ (q : Result (Unit {0})).
          HasSearched n items wanted start ((m + 1) * 32) c
            (skip_initial a wanted m (pos start) (suc left) (q, s)))
        (sym miss.none_found)
        (inr (record {
          absent = λ k from. miss.absent k (omega arith);
          none_found = refl;
          forward = miss.forward;
          grown = miss.grown;
        }))
  skip_initial-searches (suc left) m i c (r, s) some_left enough le (inl hit) =
      let first = hit.first in
      let grown = hit.grown in
      let j = hit.j in
      subst
        (λ (q : Result (Unit {0})).
          HasSearched n items wanted start ((m + 1) * 32) c
            (skip_initial a wanted m (pos start) (suc left) (q, s)))
        (sym hit.found)
        (elim (Bool-cases (ltb j start)) [
          | inl early ↦
              let before_start : j < start = ground arith in
              subst
                (λ (b : Bool).
                  HasSearched n items wanted start ((m + 1) * 32) c
                    (if b then skip_initial a wanted m (pos start) left again else (ok tt, s)))
                (sym (index_test s j hit.place ∙ early))
                (skip_initial-searches left m (suc j) c again (omega (arith, first.inside))
                  (omega (arith, first.from)) before_start
                  (search-earlier n items wanted (suc j) (suc j) ((m + 1) * 32) c grown.count again
                    (empty_range n items wanted (suc j) (suc j) (omega arith)) (omega arith)
                    grown.least
                    (next-searches n items wanted a (tracker_goto_next_key_match_in_mark a wanted m)
                      (suc j) ((m + 1) * 32) grown.count s v grown.coherent grown.most first.inside
                      hit.place
                      (λ tk place inside.
                        in_mark-searches m (suc j) grown.count (record { tk = tk; cache = s.cache })
                          hit.known grown.most inside first.to grown.coherent place))))
          | inr late ↦
              subst
                (λ (b : Bool).
                  HasSearched n items wanted start ((m + 1) * 32) c
                    (if b then skip_initial a wanted m (pos start) left again else (ok tt, s)))
                (sym (index_test s j hit.place ∙ late))
                (inl (record {
                  j = j;
                  first = record {
                    from = ground arith;
                    to = first.to;
                    inside = first.inside;
                    here = first.here;
                    earlier = λ k from. first.earlier k (omega arith);
                  };
                  found = refl;
                  place = hit.place;
                  grown = grown;
                  known = hit.known;
                }))
        ])
    where
      again : Result (Unit {0}) × State
      again = andthen (go_next a s) (tracker_goto_next_key_match_in_mark a wanted m)

      ltb_pos : (j k : ℕ) → ltb_ℤ (pos j) (pos k) ≡ ltb j k
      ltb_pos j k = ground arith

      index_test :
          (s : State) (j : ℕ) → IsAt items j s.tk → ltb_ℤ (index_of s) (pos start) ≡ ltb j start
      index_test s j place =
          ap (λ path. ltb_ℤ (path_index path) (pos start)) place.cur ∙ ltb_pos j start

  -- The items behind a mark, from item i on: those before the start are skipped at its mark.
  pub find_behind_mark-searches :
      (m i lo c : ℕ) (from : Option ℕ) (first : Bool) (s : State)
      → i ≤ c
      → c ≤ n
      → i < n
      → i ≤ (m + 1) * 32
      → IsCoherent items c s.cache
      → IsAt items i s.tk
      → IsAbsent n items wanted lo i
      → (same_mark m from ≡ true → (i ≤ start) × (lo ≡ start))
      → (same_mark m from ≡ false → lo ≤ i)
      → HasSearched n items wanted lo
          ((m + 1) * 32)
          c
          (find_behind_mark a (iter_at m from first) m s)
  unfolding find_behind_mark
  find_behind_mark-searches m i lo c from first s le most inside before_e w place passed at_start
        behind =
      let rounds = v.rounds in
      let found = tracker_goto_next_key_match_in_mark a wanted m s in
      let skipped = skip_initial a wanted m (pos start) a.max_rounds found in
      let searched = in_mark-searches m i c s le most inside before_e w place in
      elim (Bool-cases (same_mark m from)) [
        | inl same ↦
            let (i_start, lo_start) = at_start same in
            subst
              (λ (b : Bool).
                HasSearched n items wanted lo ((m + 1) * 32) c (if b then skipped else found))
              (sym same)
              (subst (λ (k : ℕ). HasSearched n items wanted k ((m + 1) * 32) c skipped)
                (sym lo_start)
                (skip_initial-searches a.max_rounds m i c found (omega arith) (omega arith) i_start
                  searched))
        | inr later ↦
            subst
              (λ (b : Bool).
                HasSearched n items wanted lo ((m + 1) * 32) c (if b then skipped else found))
              (sym later)
              (search-earlier n items wanted lo i ((m + 1) * 32) c c found passed (behind later)
                (omega arith) searched)
      ]
