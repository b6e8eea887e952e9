-- ===== src/Arrays/IndexCache/Keyed.antt =====
-- libbitpunch/src/filters/array.c: the moves of a tracker to the items with a key, among the cached
-- items first and then among the others.
use bitpunch.Base.{Bool, ℕ, zero, suc, not, ◌&&◌, if◌then◌else◌, Option, none, some}
use bitpunch.Base.Int.{ℤ, pos, eqb_ℤ, ltb_ℤ, leb_ℤ, ◌+ℤ◌}
use bitpunch.Status.{Result, ok, err, error, no_item}
use bitpunch.Expr.Values.{Value}
use bitpunch.Browse.Box.{unset}
use bitpunch.Arrays.Tracker.{Tracker, TrackPath, path_array, path_array_slice, path_notype}
use bitpunch.Arrays.IndexCache.{Items, State, Op, andthen, go_next, index_of}
use bitpunch.Arrays.IndexCache.Moves.{tracker_goto_last_cached_item_internal}
use bitpunch.Arrays.IndexCache.Match.{tracker_goto_next_key_match__array}
use bitpunch.Arrays.IndexCache.Twins.{
  Twins, box_index_cache_lookup_key_twins, index_cache_iterator_next_twin,
}
use bitpunch.Arrays.IndexCache.TwinSearch.{tracker_index_cache_goto_twin}

abbrev pub end_path : ℤ → TrackPath
end_path end_index = if not (eqb_ℤ end_index unset) then path_array end_index else path_notype

-- What a move of another tracker leaves: that tracker if it succeeded, else the one of `s`.
abbrev pub set_if_ok : State → Result (Unit {0}) × State → Result (Unit {0}) × State
set_if_ok s (ok tt, s') = (ok tt, s')
set_if_ok s (err e, s') = (err e, record s { cache = s'.cache })

-- The part behind the last cached item.
unfoldable pub browse_tail : Items → Value → ℤ → Op
unfolding tracker_goto_last_cached_item_internal tracker_goto_next_key_match__array
browse_tail a item_key end_index s =
    let xs = tracker_goto_last_cached_item_internal a s in
    set_if_ok s (
      if not (eqb_ℤ end_index unset) && leb_ℤ end_index (index_of xs)
      then (err no_item, xs)
      else andthen (go_next a xs)
          (tracker_goto_next_key_match__array a item_key (end_path end_index)))

-- A lookup and the first twin that it leads to.
unfoldable pub looked_up : Items → State → Result (Unit {0}) × Twins → Result (Unit {0}) × State
unfolding index_cache_iterator_next_twin
looked_up a s (r, t) =
    let (r', t') = index_cache_iterator_next_twin a t in
    elim r [ err e ↦ set_if_ok s (err e, t.at) | ok done ↦ set_if_ok s (r', t'.at) ]

-- The first twin in the cache, behind the index of the tracker. `new` is a new tracker in the box.
unfoldable pub first_cached : Items → Tracker → Value → ℤ → Op
unfolding box_index_cache_lookup_key_twins looked_up
first_cached a new item_key end_index s = looked_up a s (
    box_index_cache_lookup_key_twins a item_key (path_array_slice (index_of s +ℤ pos 1) end_index)
      (record s { tk = new }))

abbrev pub unless_no_item : Result (Unit {0}) × State → Op → Result (Unit {0}) × State
unless_no_item (err no_item, s) k = k s
unless_no_item r k = r

unfoldable pub tracker_goto_next_item_with_key__indexed_array_internal :
    Items → Tracker → Value → ℤ → Op
unfolding first_cached browse_tail
tracker_goto_next_item_with_key__indexed_array_internal a new item_key end_index s =
    if ltb_ℤ (index_of s) s.cache.last_cached_index
    then unless_no_item (first_cached a new item_key end_index s) (browse_tail a item_key end_index)
    else browse_tail a item_key end_index s

unfoldable pub tracker_goto_next_item_with_key__indexed_array : Items → Tracker → Value → Op
unfolding tracker_goto_next_item_with_key__indexed_array_internal
tracker_goto_next_item_with_key__indexed_array a new item_key =
    tracker_goto_next_item_with_key__indexed_array_internal a new item_key unset

-- A round of the loops over the uncached tail, behind the search of a twin.
abbrev pub tail_on :
    (ℤ → State → Result (Unit {0}) × ℤ × State)
    → (ℤ → Bool)
    → (ℤ → TrackPath → Bool)
    → ℤ
    → Result (Unit {0}) × State
    → Result (Unit {0}) × ℤ × State
tail_on again is_counted is_wanted cur_twin (err e, s) = (err e, cur_twin, s)
tail_on again is_counted is_wanted cur_twin (ok tt, s) =
    let counted = if is_counted (index_of s) then cur_twin +ℤ pos 1 else cur_twin in
    let rest = again counted s in if is_wanted counted s.tk.cur then (ok tt, counted, s) else rest

-- The loop over the uncached tail: twins up to the one that is wanted, with the number of the last
-- one of those that count.
unfoldable pub count_tail :
    Items
    → Value
    → (ℤ → Bool)
    → (ℤ → TrackPath → Bool)
    → TrackPath
    → ℕ
    → ℤ
    → State
    → Result (Unit {0}) × ℤ × State
unfolding tracker_goto_next_key_match__array
count_tail a item_key is_counted is_wanted end zero cur_twin s = (err error, cur_twin, s)
count_tail a item_key is_counted is_wanted end (suc left) cur_twin s =
    tail_on (count_tail a item_key is_counted is_wanted end left) is_counted is_wanted cur_twin
      (andthen (go_next a s) (tracker_goto_next_key_match__array a item_key end))

abbrev pub without_number : Result (Unit {0}) × ℤ × State → Result (Unit {0}) × State
without_number (r, twin, s) = (r, s)

-- What is left to do behind the cached twins, the last of which has a number: twins count from
-- `from_index` on.
unfoldable pub tail_twins : Items → Value → ℤ → ℤ → ℤ → ℤ → Op
unfolding count_tail tracker_goto_last_cached_item_internal
tail_twins a item_key nth_twin from_index end_index cur_twin s =
    let xs = tracker_goto_last_cached_item_internal a s in
    set_if_ok s (
      if not (eqb_ℤ end_index unset) && leb_ℤ end_index (index_of xs)
      then (err no_item, xs)
      else without_number (
          count_tail a item_key (leb_ℤ from_index) (λ twin path. eqb_ℤ twin nth_twin)
            (end_path end_index) a.max_rounds cur_twin xs))

abbrev pub or_tail : (ℤ → Op) → Result (Unit {0}) × Option ℤ × State → Result (Unit {0}) × State
or_tail tail (r, none, s) = (r, s)
or_tail tail (r, some cur_twin, s) = tail cur_twin s

unfoldable pub tracker_goto_nth_item_with_key__indexed_array_internal :
    Items → Tracker → Value → ℤ → ℤ → ℤ → Op
unfolding tracker_index_cache_goto_twin tail_twins
tracker_goto_nth_item_with_key__indexed_array_internal a new item_key nth_twin from_index end_index
      s =
    or_tail (tail_twins a item_key nth_twin from_index end_index) (
      tracker_index_cache_goto_twin a new item_key nth_twin (path_array_slice from_index end_index)
        s)

unfoldable pub tracker_goto_nth_item_with_key__indexed_array : Items → Tracker → Value → ℤ → Op
unfolding tracker_goto_nth_item_with_key__indexed_array_internal
tracker_goto_nth_item_with_key__indexed_array a new item_key nth_twin =
    tracker_goto_nth_item_with_key__indexed_array_internal a new item_key nth_twin (pos 0) unset
