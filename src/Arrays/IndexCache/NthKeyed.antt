-- ===== src/Arrays/IndexCache/NthKeyed.antt =====
-- The move to the nth item with a key.
use mathlib.Core.Path.{subst}
use bitpunch.Base.{Bool, true, false, ℕ, ◌≤◌, ◌≡◌, refl, sym, ◌⊎◌, inl, inr, arith}
use bitpunch.Base.Int.{ℤ, pos, eqb_ℤ, leb_ℤ}
use bitpunch.Status.{Result}
use bitpunch.Expr.Values.{Value}
use bitpunch.Browse.Box.{unset}
use bitpunch.Arrays.Tracker.{TrackPath, Tracker, path_array, path_array_slice}
use bitpunch.Arrays.IndexCache.{Items, State}
use bitpunch.Arrays.IndexCache.Moves.{tracker_goto_last_cached_item_internal}
use bitpunch.Arrays.IndexCache.Twins.{Twins, box_index_cache_lookup_key_twins}
use bitpunch.Arrays.IndexCache.TwinSearch.{
  count_twins, goto_counted, if_looked_up, tracker_index_cache_goto_twin,
}
use bitpunch.Arrays.IndexCache.Keyed.{
  without_number, set_if_ok, tail_twins, or_tail,
  tracker_goto_nth_item_with_key__indexed_array_internal,
  tracker_goto_nth_item_with_key__indexed_array,
}
use bitpunch.Arrays.IndexCache.Placed.{Contents, before}
use bitpunch.Arrays.IndexCache.Coherent.{IsCoherent}
use bitpunch.Arrays.IndexCache.Searched.{IsIndexed}
use bitpunch.Arrays.IndexCache.LookupFinds.{first_twin-searches}
use bitpunch.Arrays.IndexCache.LastCached.{last_cached-place}
use bitpunch.Arrays.IndexCache.TwinsBefore.{
  number-Selects, number-Selects_sym, twins_before, IsNthTwin, HasTooFew,
}
use bitpunch.Arrays.IndexCache.TwinCount.{Counts, count_twins-Counts}
use bitpunch.Arrays.IndexCache.TailCount.{HasCounted, tail_from, tail-counts}

module _ (a : Items) (n : ℕ) (items : Contents) (wanted : Value) (v : IsIndexed a n items wanted)
    (nth : ℕ) where
  -- As HasCounted, where a search that fails leaves the tracker where it was.
  abbrev pub HasStayed : Tracker → Result (Unit {0}) × State → Type 0
  HasStayed tk (r, s) =
      IsNthTwin n items wanted nth r s ⊎ (HasTooFew n items wanted nth r s × (s.tk ≡ tk))

  abbrev is_number : ℤ → TrackPath → Bool
  is_number twin path = eqb_ℤ twin (pos nth)

  abbrev is_number_of : ℤ → TrackPath → Bool
  is_number_of twin path = eqb_ℤ (pos nth) twin

  zero_leb : (j : ℕ) → leb_ℤ (pos 0) (pos j) ≡ true
  zero_leb j = ground arith

  abbrev Counted : Result (Unit {0}) × ℤ × State → Type 0
  Counted =
      HasCounted a n items wanted v nth (leb_ℤ (pos 0)) zero_leb is_number
        (number-Selects n items wanted nth)

  abbrev tail_loop : ℤ → State → Result (Unit {0}) × ℤ × State
  tail_loop =
      tail_from a n items wanted v nth (leb_ℤ (pos 0)) zero_leb is_number
        (number-Selects n items wanted nth) a.max_rounds

  set_if_ok-HasStayed :
      (s : State) (r : Result (Unit {0}) × ℤ × State)
      → Counted r
      → HasStayed s.tk (set_if_ok s (without_number r))
  set_if_ok-HasStayed s (r, twin, s') (inl (one, number)) =
      subst (λ (q : Result (Unit {0})). HasStayed s.tk (set_if_ok s (q, s'))) (sym one.found)
        (inl (record {
          j = one.j;
          inside = one.inside;
          here = one.here;
          number = one.number;
          found = refl;
          place = one.place;
          count = one.count;
          most = one.most;
          coherent = one.coherent;
        }))
  set_if_ok-HasStayed s (r, twin, s') (inr few) =
      subst (λ (q : Result (Unit {0})). HasStayed s.tk (set_if_ok s (q, s'))) (sym few.none_found)
        (inr (
          record {
            none_found = refl;
            fewer = few.fewer;
            count = few.count;
            most = few.most;
            coherent = few.coherent;
          },
          refl,
        ))

  -- The tail, from the cached items that have been gone through.
  tail_twins-counts :
      (s : State) (twin z : ℤ) (c : ℕ)
      → IsCoherent items c s.cache
      → c ≤ n
      → twins_before n items wanted c ≤ nth
      → twin ≡ before (twins_before n items wanted c)
      → s.tk.cur ≡ path_array z
      → s.tk.reversed ≡ false
      → HasStayed s.tk (tail_twins a wanted (pos nth) (pos 0) unset twin s)
  unfolding tail_twins
  tail_twins-counts s twin z c w most few last cur forward =
      let rounds = v.rounds in
      let xs = tracker_goto_last_cached_item_internal a s in
      let (place, kept) = last_cached-place a items c s z w cur forward in
      set_if_ok-HasStayed s (tail_loop twin xs) (
        subst (λ (y : ℤ). Counted (tail_loop y xs)) (sym last)
          (tail-counts a n items wanted v nth (leb_ℤ (pos 0)) zero_leb is_number
            (number-Selects n items wanted nth) a.max_rounds c c xs (omega arith) (omega arith) most
            few (subst (λ cache. IsCoherent items c cache) (sym kept) w) place))

  -- The cached twins, and then the tail.
  counted_then_tail :
      (s : State) (z : ℤ) (r : Result (Unit {0})) (twin : ℤ) (t : Twins)
      → s.tk.cur ≡ path_array z
      → s.tk.reversed ≡ false
      → Counts a n items wanted v 0 nth is_number_of
          (number-Selects_sym n items wanted nth)
          (r, twin, t)
      → HasStayed s.tk
          (or_tail (tail_twins a wanted (pos nth) (pos 0) unset) (goto_counted s (r, twin, t)))
  counted_then_tail s z r twin t cur forward (inl (one, number)) =
      subst
        (λ (q : Result (Unit {0})).
          HasStayed s.tk
            (or_tail (tail_twins a wanted (pos nth) (pos 0) unset) (goto_counted s (q, twin, t))))
        (sym one.found)
        (inl (record {
          j = one.j;
          inside = one.inside;
          here = one.here;
          number = one.number;
          found = refl;
          place = one.place;
          count = one.count;
          most = one.most;
          coherent = one.coherent;
        }))
  counted_then_tail s z r twin t cur forward (inr few) =
      subst
        (λ (q : Result (Unit {0})).
          HasStayed s.tk
            (or_tail (tail_twins a wanted (pos nth) (pos 0) unset) (goto_counted s (q, twin, t))))
        (sym few.none_found)
        (tail_twins-counts (record s { cache = t.at.cache }) twin z few.count few.coherent few.most
          few.fewer few.last_twin cur forward)

-- From any forward tracker in an indexed array of n items with comparable keys, whose cache is one
-- of its first items, the move to twin number nth of a key finds the item with the key that has
-- exactly nth items with the key before it, as a count over all keys would, and stands at it with
-- its offset, not at the end; or it returns BITPUNCH_NO_ITEM if there are no more than nth and
-- leaves the tracker where it was. The cache stays one of the array's first items. The moves to the
-- next item and the evaluation of a key are taken to work for forward trackers that are dangling or
-- stand at an item with its offset, as IsIndexed says.
pub tracker_goto_nth_item_with_key_finds :
    (a : Items) (n : ℕ) (items : Contents) (wanted : Value) (v : IsIndexed a n items wanted)
    (nth : ℕ) (new : Tracker) (c : ℕ) (s : State) (z : ℤ)
    → IsCoherent items c s.cache
    → c ≤ n
    → s.tk.cur ≡ path_array z
    → s.tk.reversed ≡ false
    → new.reversed ≡ false
    → HasStayed a n items wanted v nth s.tk
        (tracker_goto_nth_item_with_key__indexed_array a new wanted (pos nth) s)
unfolding tracker_goto_nth_item_with_key__indexed_array
    tracker_goto_nth_item_with_key__indexed_array_internal tracker_index_cache_goto_twin
    twins_before
tracker_goto_nth_item_with_key_finds a n items wanted v nth new c s z w most cur forward
      new_forward =
    let rounds = v.rounds in
    let at : State = record s { tk = new } in
    let (started, looked) =
      first_twin-searches a n items wanted v 0 c at w most (omega arith) new_forward in
    let t = (box_index_cache_lookup_key_twins a wanted (path_array_slice (pos 0) unset) at).1 in
    let counted = count_twins a (λ twin path. eqb_ℤ (pos nth) twin) a.max_rounds unset t in
    subst
      (λ (q : Result (Unit {0})). HasStayed a n items wanted v nth s.tk (
        or_tail (tail_twins a wanted (pos nth) (pos 0) unset) (
          if_looked_up
            (λ t'.
              goto_counted s
                (count_twins a (λ twin path. eqb_ℤ (pos nth) twin) a.max_rounds unset t'))
            s (q, t))))
      (sym started)
      (counted_then_tail a n items wanted v nth s z counted.0 counted.1 counted.2 cur forward (
        count_twins-Counts a n items wanted v 0 nth (λ twin path. eqb_ℤ (pos nth) twin)
          (number-Selects_sym n items wanted nth) a.max_rounds 0 c t (omega arith) (omega arith)
          (omega arith) (omega arith) looked))
