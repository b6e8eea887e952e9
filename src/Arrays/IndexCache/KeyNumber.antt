-- ===== src/Arrays/IndexCache/KeyNumber.antt =====
-- The number that is read for an item counts the items with its key before it.
use mathlib.Core.Path.{subst}
use bitpunch.Base.{Bool, true, false, ◌||◌, ℕ, suc, ◌≤◌, ◌<◌, ◌≡◌, refl, sym, ap, inl, inr, arith}
use bitpunch.Base.Int.{ℤ, pos, eqb_ℤ, leb_ℤ}
use bitpunch.Status.{Result, ok}
use bitpunch.Browse.Box.{unset}
use bitpunch.Arrays.Tracker.{TrackPath, Tracker, path_array, path_array_slice, track_path_eq}
use bitpunch.Arrays.IndexCache.{ArrayCache, Items, State}
use bitpunch.Arrays.IndexCache.Moves.{tracker_goto_last_cached_item_internal}
use bitpunch.Arrays.IndexCache.Twins.{Twins, box_index_cache_lookup_key_twins}
use bitpunch.Arrays.IndexCache.TwinSearch.{
  count_twins, lookup_counted, if_looked_up, tracker_index_cache_lookup_current_twin_index,
}
use bitpunch.Arrays.IndexCache.ItemKey.{
  tail_number, lookup_in_tail, or_lookup, tracker_lookup_current_twin_index,
}
use bitpunch.Arrays.IndexCache.Placed.{Contents, before}
use bitpunch.Arrays.IndexCache.Coherent.{IsCoherent}
use bitpunch.Arrays.IndexCache.Searched.{IsIndexed}
use bitpunch.Arrays.IndexCache.LookupFinds.{first_twin-searches}
use bitpunch.Arrays.IndexCache.LastCached.{last_cached-place}
use bitpunch.Arrays.IndexCache.TwinsBefore.{
  twins_before, twins_before_mono, twins_before-same, place-Selects, Selects,
}
use bitpunch.Arrays.IndexCache.TwinCount.{Counts, count_twins-Counts}
use bitpunch.Arrays.IndexCache.TailCount.{HasCounted, tail_from, tail-counts}

module _ (a : Items) (n : ℕ) (items : Contents) (i : ℕ) (inside : i < n)
    (v : IsIndexed a n items (items.key i)) where
  abbrev pub number_of : ℕ
  number_of = twins_before n items (items.key i) i

  -- The number is read, and the tracker is where it was.
  pub record IsNumbered (tk : Tracker) (r : Result ℤ) (s : State) : Type 0 where
    pub read : r ≡ ok (pos number_of)
    pub stays : s.tk ≡ tk
    pub count : ℕ
    pub most : count ≤ n
    pub coherent : IsCoherent items count s.cache

  abbrev pub HasNumbered : Tracker → Result ℤ × State → Type 0
  HasNumbered tk (r, s) = IsNumbered tk r s

  abbrev is_counted : ℤ → Bool
  is_counted index = eqb_ℤ (pos 0) unset || leb_ℤ (pos 0) index

  counts_all : (j : ℕ) → is_counted (pos j) ≡ true
  counts_all j = ground arith

  pub more_than_number : suc number_of ≤ twins_before n items (items.key i) n
  more_than_number = omega (
    arith,
    twins_before-same n items (items.key i) i v.comparable inside refl,
    twins_before_mono n items (items.key i) (suc i) n inside,
  )

  module _ (s : State) (here : s.tk.cur ≡ path_array (pos i))
      (forward : s.tk.reversed ≡ false) where
    abbrev is_here : ℤ → TrackPath → Bool
    is_here twin path = track_path_eq path s.tk.cur

    here-Selects : Selects n items (items.key i) number_of is_here
    here-Selects = place-Selects n items (items.key i) i s.tk.cur v.comparable inside refl here

    abbrev Counted : Result (Unit {0}) × ℤ × State → Type 0
    Counted =
        HasCounted a n items (items.key i) v number_of is_counted counts_all is_here here-Selects

    tail_number-HasNumbered :
        (s' : State) (r : Result (Unit {0}) × ℤ × State)
        → s'.tk ≡ s.tk
        → Counted r
        → HasNumbered s.tk (tail_number s' r)
    tail_number-HasNumbered s' (r, twin, xs) same (inl (one, number)) =
        subst (λ (q : Result (Unit {0})). HasNumbered s.tk (tail_number s' (q, twin, xs)))
          (sym one.found)
          (record {
            read = ap ok number;
            stays = same;
            count = one.count;
            most = one.most;
            coherent = one.coherent;
          })
    tail_number-HasNumbered s' (r, twin, xs) same (inr few) =
        absurd (omega (arith, few.fewer, more_than_number))

    -- The tail, from the cached items that have been gone through.
    tail-numbers :
        (cache : ArrayCache) (twin : ℤ) (c : ℕ)
        → IsCoherent items c cache
        → c ≤ n
        → twins_before n items (items.key i) c ≤ number_of
        → twin ≡ before (twins_before n items (items.key i) c)
        → HasNumbered s.tk
            (lookup_in_tail a (items.key i) (pos 0) twin (record s { cache = cache }))
    unfolding lookup_in_tail
    tail-numbers cache twin c w most few last =
        let rounds = v.rounds in
        let s' : State = record s { cache = cache } in
        let xs = tracker_goto_last_cached_item_internal a s' in
        let (place, kept) = last_cached-place a items c s' (pos i) w here forward in
        let loop : ℤ → Result (Unit {0}) × ℤ × State = λ (y : ℤ).
          tail_from a n items (items.key i) v number_of is_counted counts_all is_here here-Selects
            a.max_rounds y xs in
        tail_number-HasNumbered s' (loop twin) refl (
          subst (λ (y : ℤ). Counted (loop y)) (sym last)
            (tail-counts a n items (items.key i) v number_of is_counted counts_all is_here
              here-Selects a.max_rounds c c xs (omega arith) (omega arith) most few
              (subst (λ k. IsCoherent items c k) (sym kept) w) place))

    -- The cached twins, and then the tail.
    counted_then_tail :
        (r : Result (Unit {0})) (twin : ℤ) (t : Twins)
        → Counts a n items (items.key i) v 0 number_of is_here here-Selects (r, twin, t)
        → HasNumbered s.tk
            (or_lookup (lookup_in_tail a (items.key i) (pos 0)) (lookup_counted s (r, twin, t)))
    counted_then_tail r twin t (inl (one, number)) =
        subst
          (λ (q : Result (Unit {0})).
            HasNumbered s.tk
              (or_lookup (lookup_in_tail a (items.key i) (pos 0)) (lookup_counted s (q, twin, t))))
          (sym one.found)
          (record {
            read = ap ok number;
            stays = refl;
            count = one.count;
            most = one.most;
            coherent = one.coherent;
          })
    counted_then_tail r twin t (inr few) =
        subst
          (λ (q : Result (Unit {0})).
            HasNumbered s.tk
              (or_lookup (lookup_in_tail a (items.key i) (pos 0)) (lookup_counted s (q, twin, t))))
          (sym few.none_found)
          (tail-numbers t.at.cache twin few.count few.coherent few.most few.fewer few.last_twin)

    pub lookup-numbers :
        (new : Tracker) (c : ℕ)
        → IsCoherent items c s.cache
        → c ≤ n
        → new.reversed ≡ false
        → HasNumbered s.tk (tracker_lookup_current_twin_index a new (items.key i) (pos 0) s)
    unfolding tracker_lookup_current_twin_index tracker_index_cache_lookup_current_twin_index
        twins_before
    lookup-numbers new c w most new_forward =
        let rounds = v.rounds in
        let at : State = record s { tk = new } in
        let (started, looked) =
          first_twin-searches a n items (items.key i) v 0 c at w most (omega arith) new_forward in
        let t =
          (box_index_cache_lookup_key_twins a (items.key i) (path_array_slice (pos 0) unset)
            at).1 in
        let counted = count_twins a is_here a.max_rounds unset t in
        subst
          (λ (q : Result (Unit {0})). HasNumbered s.tk (
            or_lookup (lookup_in_tail a (items.key i) (pos 0)) (
              if_looked_up (λ t'. lookup_counted s (count_twins a is_here a.max_rounds unset t')) s
                (q, t))))
          (sym started)
          (counted_then_tail counted.0 counted.1 counted.2 (
            count_twins-Counts a n items (items.key i) v 0 number_of is_here here-Selects
              a.max_rounds 0 c t (omega arith) (omega arith) (omega arith) (omega arith) looked))
