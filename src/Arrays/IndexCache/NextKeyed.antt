-- ===== src/Arrays/IndexCache/NextKeyed.antt =====
-- The move to the next item with a key: through the cached items by the book, and then through the
-- others one by one.
use mathlib.Core.Path.{subst}
use bitpunch.Base.{
  ℕ, zero, suc, ◌≤◌, ◌≡◌, ◌∙◌, refl, sym, ap, false, ◌⊎◌, inl, inr, arith, Bool, ltb, if◌then◌else◌,
  Bool-cases,
}
use bitpunch.Base.Int.{ℤ, pos, ltb_ℤ, ◌+ℤ◌}
use bitpunch.Status.{Result, ok}
use bitpunch.Expr.Values.{Value}
use bitpunch.Browse.Box.{unset}
use bitpunch.Arrays.Tracker.{Tracker, path_array, path_array_slice, path_index, path_notype}
use bitpunch.Arrays.IndexCache.{Items, State, andthen, go_next, index_of}
use bitpunch.Arrays.IndexCache.Moves.{tracker_goto_last_cached_item_internal}
use bitpunch.Arrays.IndexCache.Match.{tracker_goto_next_key_match__array}
use bitpunch.Arrays.IndexCache.Twins.{
  Twins, box_index_cache_lookup_key_twins, index_cache_iterator_next_twin,
}
use bitpunch.Arrays.IndexCache.Keyed.{
  set_if_ok, unless_no_item, browse_tail, looked_up, first_cached,
  tracker_goto_next_item_with_key__indexed_array_internal,
  tracker_goto_next_item_with_key__indexed_array,
}
use bitpunch.Arrays.IndexCache.TwinsBefore.{before-next}
use bitpunch.Arrays.IndexCache.LastCached.{last_cached-place}
use bitpunch.Arrays.IndexCache.Placed.{Contents, before}
use bitpunch.Arrays.IndexCache.Coherent.{IsCoherent}
use bitpunch.Arrays.IndexCache.Searched.{
  IsIndexed, IsAbsent, IsHit, IsMiss, HasSearched, success_earlier, failure_earlier, next-searches,
}
use bitpunch.Arrays.IndexCache.MatchFinds.{match_all-searches}
use bitpunch.Arrays.IndexCache.TwinLookup.{HasLookedUp}
use bitpunch.Arrays.IndexCache.LookupFinds.{first_twin-searches}

-- As HasSearched, where a search that fails leaves the tracker where it was.
abbrev pub HasMoved :
    (n : ℕ) (items : Contents) (wanted : Value)
    → ℕ
    → ℕ
    → Tracker
    → Result (Unit {0}) × State
    → Type 0
HasMoved n items wanted lo c tk (r, s) =
    IsHit n items wanted lo n c r s ⊎ (IsMiss n items wanted lo n c r s × (s.tk ≡ tk))

module _ (a : Items) (n : ℕ) (items : Contents) (wanted : Value)
    (v : IsIndexed a n items wanted) where
  set_if_ok-HasMoved :
      (lo c : ℕ) (s : State) (r : Result (Unit {0}) × State)
      → s.tk.reversed ≡ false
      → HasSearched n items wanted lo n c r
      → HasMoved n items wanted lo c s.tk (set_if_ok s r)
  set_if_ok-HasMoved lo c s (r, s') forward (inl hit) =
      subst (λ (q : Result (Unit {0})). HasMoved n items wanted lo c s.tk (set_if_ok s (q, s')))
        (sym hit.found)
        (inl (record {
          j = hit.j;
          first = hit.first;
          found = refl;
          place = hit.place;
          grown = hit.grown;
          known = hit.known;
        }))
  set_if_ok-HasMoved lo c s (r, s') forward (inr miss) =
      subst (λ (q : Result (Unit {0})). HasMoved n items wanted lo c s.tk (set_if_ok s (q, s')))
        (sym miss.none_found)
        (inr (
          record { absent = miss.absent; none_found = refl; forward = forward; grown = miss.grown },
          refl,
        ))

  pub browse_tail-searches :
      (c : ℕ) (s : State) (z : ℤ)
      → IsCoherent items c s.cache
      → c ≤ n
      → s.tk.cur ≡ path_array z
      → s.tk.reversed ≡ false
      → HasMoved n items wanted c c s.tk (browse_tail a wanted unset s)
  unfolding browse_tail
  browse_tail-searches c s z w most cur forward =
      let xs = tracker_goto_last_cached_item_internal a s in
      let (place, kept) = last_cached-place a items c s z w cur forward in
      let w' = subst (λ cache. IsCoherent items c cache) (sym kept) w in
      set_if_ok-HasMoved c c s
        (andthen (go_next a xs) (tracker_goto_next_key_match__array a wanted path_notype)) forward
        (next-searches n items wanted a (tracker_goto_next_key_match__array a wanted path_notype) c
          n c xs v w' most most place
          (λ tk at_c inside.
            match_all-searches a n items wanted v c c (record { tk = tk; cache = xs.cache })
              (omega arith) most inside w' at_c))

  moved-earlier :
      (lo c c' : ℕ) (tk : Tracker) (r : Result (Unit {0}) × State)
      → IsAbsent n items wanted lo c'
      → lo ≤ c'
      → c ≤ c'
      → HasMoved n items wanted c' c' tk r
      → HasMoved n items wanted lo c tk r
  moved-earlier lo c c' tk (r, s) passed le grow (inl hit) =
      inl (success_earlier n items wanted lo c' n c c' r s passed le grow hit)
  moved-earlier lo c c' tk (r, s) passed le grow (inr (miss, kept)) =
      inr (failure_earlier n items wanted lo c' n c c' r s passed grow miss, kept)

  looked_up-ok :
      (r : Result (Unit {0})) (t : Twins) (s : State)
      → r ≡ ok tt
      → let (r', t') = index_cache_iterator_next_twin a t in
        looked_up a s (r, t) ≡ set_if_ok s (r', t'.at)
  unfolding looked_up
  looked_up-ok r t s e = rw e refl

  first_cached-eq :
      (new : Tracker) (start : ℕ) (s : State)
      → s.tk.cur ≡ path_array (before start)
      → let (r, t) =
          box_index_cache_lookup_key_twins a wanted
            (path_array_slice (pos start) unset)
            (record s { tk = new }) in
        r ≡ ok tt
        → let (r', t') = index_cache_iterator_next_twin a t in
          first_cached a new wanted unset s ≡ set_if_ok s (r', t'.at)
  unfolding first_cached
  first_cached-eq new start s cur started =
      let at : State = record s { tk = new } in
      let found =
        box_index_cache_lookup_key_twins a wanted (path_array_slice (pos start) unset) at in
      ap
        (λ (index : ℤ).
          looked_up a s
            (box_index_cache_lookup_key_twins a wanted (path_array_slice index unset) at))
        (ap (λ path. path_index path +ℤ pos 1) cur ∙ before-next start)
      ∙ looked_up-ok found.0 found.1 s started

  before-ltb : (i c : ℕ) → ltb_ℤ (before i) (before c) ≡ ltb i c
  before-ltb zero zero = ground arith
  before-ltb zero (suc c) = ground arith
  before-ltb (suc i) zero = ground arith
  before-ltb (suc i) (suc c) = ground arith

  -- The cached items first, and then the others.
  cached_then_tail :
      (start c : ℕ) (s : State) (r : Result (Unit {0})) (t : Twins)
      → start ≤ c
      → s.tk.cur ≡ path_array (before start)
      → s.tk.reversed ≡ false
      → HasLookedUp a n items wanted v start start c (r, t)
      → HasMoved n items wanted start c s.tk
          (unless_no_item (set_if_ok s (r, t.at)) (browse_tail a wanted unset))
  cached_then_tail start c s r t le cur forward (inl twin) =
      subst
        (λ (q : Result (Unit {0})).
          HasMoved n items wanted start c s.tk
            (unless_no_item (set_if_ok s (q, t.at)) (browse_tail a wanted unset)))
        (sym twin.found)
        (inl (record {
          j = twin.j;
          first = twin.first;
          found = refl;
          place = twin.place;
          grown = twin.grown;
          known = twin.known;
        }))
  cached_then_tail start c s r t le cur forward (inr no_twin) =
      let grown = no_twin.grown in
      let s' : State = record s { cache = t.at.cache } in
      subst
        (λ (q : Result (Unit {0})).
          HasMoved n items wanted start c s.tk
            (unless_no_item (set_if_ok s (q, t.at)) (browse_tail a wanted unset)))
        (sym no_twin.none_found)
        (moved-earlier start c grown.count s.tk (browse_tail a wanted unset s') no_twin.absent
          (omega (arith, grown.least)) grown.least
          (browse_tail-searches grown.count s' (before start) grown.coherent grown.most cur
            forward))

-- From a forward tracker that is not behind the last cached item of an indexed array of n items
-- with comparable keys, whatever its offset and whether or not it is at the end, the move to the
-- next item with a key, which goes through the cache and its Bloom filters, finds the first item
-- behind the tracker with that key as a comparison of all keys would, and stands at it with its
-- offset, not at the end; or it returns BITPUNCH_NO_ITEM if there is none and leaves the tracker
-- where it was. The cache, which holds the keys, the offsets of the marks and that of the last
-- item, stays one of the array's first items. The moves to the next item and the evaluation of a
-- key are taken to work for forward trackers that are dangling or stand at an item with its offset,
-- as IsIndexed says.
pub tracker_goto_next_item_with_key_finds :
    (a : Items) (n : ℕ) (items : Contents) (wanted : Value) (new : Tracker) (start c : ℕ)
    (s : State)
    → IsIndexed a n items wanted
    → IsCoherent items c s.cache
    → c ≤ n
    → start ≤ c
    → s.tk.cur ≡ path_array (before start)
    → s.tk.reversed ≡ false
    → new.reversed ≡ false
    → HasMoved n items wanted start c s.tk
        (tracker_goto_next_item_with_key__indexed_array a new wanted s)
unfolding tracker_goto_next_item_with_key__indexed_array
    tracker_goto_next_item_with_key__indexed_array_internal
tracker_goto_next_item_with_key_finds a n items wanted new start c s v w most le cur forward
      new_forward =
    let tail = browse_tail a wanted unset in
    let cached = unless_no_item (first_cached a new wanted unset s) tail in
    let test : ltb_ℤ (index_of s) s.cache.last_cached_index ≡ ltb start c =
      ap (λ path. ltb_ℤ (path_index path) s.cache.last_cached_index) cur
      ∙ ap (λ last. ltb_ℤ (before start) last) w.last
      ∙ before-ltb a n items wanted v start c in
    let at : State = record s { tk = new } in
    let (started, looked) =
      first_twin-searches a n items wanted v start c at w most le new_forward in
    elim (Bool-cases (ltb start c)) [
      | inl inside ↦
          subst (λ (b : Bool). HasMoved n items wanted start c s.tk (if b then cached else tail s))
            (sym (test ∙ inside))
            (subst (λ r. HasMoved n items wanted start c s.tk (unless_no_item r tail))
              (sym (first_cached-eq a n items wanted v new start s cur started))
              (cached_then_tail a n items wanted v start c s _ _ le cur forward looked))
      | inr behind ↦
          let same : start ≡ c = ground arith in
          subst (λ (b : Bool). HasMoved n items wanted start c s.tk (if b then cached else tail s))
            (sym (test ∙ behind))
            (moved-earlier a n items wanted v start c c s.tk (tail s)
              (λ i from to. let absurdity : ⊥ = omega arith in elim absurdity [ ]) le (omega arith)
              (browse_tail-searches a n items wanted v c s (before start) w most cur forward))
    ]
