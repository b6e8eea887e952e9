-- ===== src/Arrays/IndexCache/NthItem.antt =====
-- The move to an item of variable size by its index, from any tracker.
use mathlib.Core.Path.{subst}
use bitpunch.Base.{
  leb, ℕ, ◌≤◌, ◌<◌, ◌≡◌, refl, sym, ap, ◌⊎◌, inl, inr, arith, Bool, true, not, false, if◌then◌else◌,
}
use bitpunch.Base.Int.{ℤ, pos, leb_ℤ}
use bitpunch.Status.{Result, ok, err, no_item}
use bitpunch.Expr.Values.{Value}
use bitpunch.Arrays.Tracker.{Tracker, path_array, with_index}
use bitpunch.Arrays.IndexCache.{Items, State, andthen}
use bitpunch.Arrays.IndexCache.Keyed.{set_if_ok}
use bitpunch.Arrays.IndexCache.Nth.{
  nth_loop, start_nth, tracker_goto_nth_item__array_var_item_size,
  tracker_goto_nth_item__array_non_slack_var_item_size,
}
use bitpunch.Arrays.IndexCache.Placed.{Contents, IsAt}
use bitpunch.Arrays.IndexCache.Coherent.{IsCoherent}
use bitpunch.Arrays.IndexCache.Searched.{IsIndexed}
use bitpunch.Arrays.IndexCache.NthStart.{HasStarted, start-HasStarted}
use bitpunch.Arrays.IndexCache.NthFinds.{HasReached, nth_loop-reaches}

module _ (a : Items) (n : ℕ) (items : Contents) (wanted : Value) (v : IsIndexed a n items wanted)
    (new : Tracker) where
  then-reaches :
      (j c : ℕ) (s : State) (p : Result (Unit {0}) × State)
      → j < n
      → c ≤ n
      → HasStarted a n items wanted v new j c p
      → HasReached a n items wanted v new j c
          (set_if_ok s (andthen p (nth_loop a new (pos j) a.max_rounds)))
  then-reaches j c s (r, s') inside most started =
      let rounds = v.rounds in
      let reached =
        nth_loop-reaches a n items wanted v new a.max_rounds started.i j c s' (omega arith)
          started.before_j inside started.known most started.coherent started.place in
      subst
        (λ (q : Result (Unit {0})).
          HasReached a n items wanted v new j c
            (set_if_ok s (andthen (q, s') (nth_loop a new (pos j) a.max_rounds))))
        (sym started.found) (set-reaches (nth_loop a new (pos j) a.max_rounds s') reached)
    where
      set-reaches :
          (p : Result (Unit {0}) × State)
          → HasReached a n items wanted v new j c p
          → HasReached a n items wanted v new j c (set_if_ok s p)
      set-reaches (ok tt, t) reached = reached
      set-reaches (err e, t) reached = let absurdity : ⊥ = cc (reached.found) in elim absurdity [ ]

  -- The tracker is at item j; if it keeps an offset, that is the item's, and the item is cached.
  pub record IsGone (j c : ℕ) (needed : Bool) (r : Result (Unit {0})) (s : State) : Type 0 where
    pub inside : j < n
    pub found : r ≡ ok tt
    pub cur : s.tk.cur ≡ path_array (pos j)
    pub count : ℕ
    pub least : c ≤ count
    pub most : count ≤ n
    pub coherent : IsCoherent items count s.cache
    pub in_cache : (needed ≡ false) ⊎ ((j < count) × IsAt items j s.tk)

  -- Beyond the array nothing changes.
  abbrev pub HasGone : ℕ → ℕ → Bool → State → Result (Unit {0}) × State → Type 0
  HasGone j c needed s (r, s') = ((n ≤ j) × (r ≡ err no_item) × (s' ≡ s)) ⊎ IsGone j c needed r s'

  reached-HasGone :
      (j c : ℕ) (needed : Bool) (s : State) (p : Result (Unit {0}) × State)
      → j < n
      → HasReached a n items wanted v new j c p
      → HasGone j c needed s p
  reached-HasGone j c needed s (r, s') inside reached = inr (record {
    inside = inside;
    found = reached.found;
    cur = let place = reached.place in place.cur;
    count = reached.count;
    least = reached.least;
    most = reached.most;
    coherent = reached.coherent;
    in_cache = inr (reached.known, reached.place);
  })

  -- What a tracker without an offset becomes.
  abbrev placed : ℕ → State → State
  placed j s = record s {
    tk = record s.tk {
      has_filter = true;
      has_item = true;
      at_end = false;
      cur = with_index s.tk.cur (pos j);
    };
  }

  abbrev goto_item : ℕ → State → Bool → Bool → Result (Unit {0}) × State
  goto_item j s beyond needed =
      if beyond
      then (err no_item, s)
      else (if not needed
          then (ok tt, placed j s)
          else tracker_goto_nth_item__array_var_item_size a new (pos j) s)

  goto_item-HasGone :
      (j c : ℕ) (s : State) (z : ℤ) (beyond needed : Bool)
      → IsCoherent items c s.cache
      → c ≤ n
      → s.tk.cur ≡ path_array z
      → s.tk.reversed ≡ false
      → leb n j ≡ beyond
      → HasGone j c needed s (goto_item j s beyond needed)
  unfolding tracker_goto_nth_item__array_var_item_size
  goto_item-HasGone j c s z true needed w most at forward test = inl (ground arith, refl, refl)
  goto_item-HasGone j c s z false false w most at forward test = inr (record {
    inside = ground arith;
    found = refl;
    cur = ap (λ path. with_index path (pos j)) at;
    count = c;
    least = omega arith;
    most = most;
    coherent = w;
    in_cache = inl refl;
  })
  goto_item-HasGone j c s z false true w most at forward test =
      let inside : j < n = ground arith in
      reached-HasGone j c true s (tracker_goto_nth_item__array_var_item_size a new (pos j) s) inside
        (then-reaches j c s (start_nth a (pos j) s) inside most
          (start-HasStarted a n items wanted v new j c s z w inside at forward))

-- In an array of n items, indexed by keys that can be compared to one value, with a cache of its
-- first c items, the move of a forward tracker to item j by the code for items of variable size
-- succeeds wherever the tracker is. If it keeps an offset, it stands at the item with the item's
-- offset then, not at the end, and the cache that is left holds at least c first items of the
-- array, item j among them; else its index is j. For j not below n the move returns
-- BITPUNCH_NO_ITEM and nothing is changed. The moves to the next item and the evaluation of a key
-- are taken to work for forward trackers that are dangling or stand at an item with its offset, as
-- IsIndexed says.
pub tracker_goto_nth_item__array_non_slack_var_item_size_reaches :
    (a : Items) (n : ℕ) (items : Contents) (wanted : Value) (v : IsIndexed a n items wanted)
    (new : Tracker) (j c : ℕ) (s : State) (z : ℤ)
    → IsCoherent items c s.cache
    → c ≤ n
    → s.tk.cur ≡ path_array z
    → s.tk.reversed ≡ false
    → HasGone a n items wanted v new j c s.tk.need_item_offset s
        (tracker_goto_nth_item__array_non_slack_var_item_size a (ok (pos n)) new (pos j) s)
unfolding tracker_goto_nth_item__array_non_slack_var_item_size
tracker_goto_nth_item__array_non_slack_var_item_size_reaches a n items wanted v new j c s z w most
      at forward =
    goto_item-HasGone a n items wanted v new j c s z (leb_ℤ (pos n) (pos j)) s.tk.need_item_offset w
      most at forward leb_pos
  where
    leb_pos : leb n j ≡ leb_ℤ (pos n) (pos j)
    leb_pos = ground arith
