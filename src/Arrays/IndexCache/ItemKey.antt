-- ===== src/Arrays/IndexCache/ItemKey.antt =====
-- libbitpunch/src/filters/array.c: the key of an item, and its number among the items with that key.
use bitpunch.Base.{true, false, Bool, ◌||◌, if◌then◌else◌, Option, none, some}
use bitpunch.Base.Int.{ℤ, pos, eqb_ℤ, leb_ℤ}
use bitpunch.Status.{Result, ok, err, error, no_item}
use bitpunch.Expr.Values.{Value, integer}
use bitpunch.Browse.Box.{unset}
use bitpunch.Arrays.Tracker.{
  Tracker, path_array_slice, path_notype, tracker_is_dangling, track_path_eq,
}
use bitpunch.Arrays.IndexCache.{Items, State, index_of}
use bitpunch.Arrays.IndexCache.Moves.{tracker_goto_last_cached_item_internal}
use bitpunch.Arrays.IndexCache.TwinSearch.{tracker_index_cache_lookup_current_twin_index}
use bitpunch.Arrays.IndexCache.Keyed.{count_tail}

-- The number behind the tail: that of the last twin if the loop succeeded.
abbrev pub tail_number : State → Result (Unit {0}) × ℤ × State → Result ℤ × State
tail_number s (ok tt, twin, xs) = (ok twin, record s { cache = xs.cache })
tail_number s (err e, twin, xs) = (err e, record s { cache = xs.cache })

-- The part behind the last cached item, up to the place of the tracker.
unfoldable pub lookup_in_tail : Items → Value → ℤ → ℤ → State → Result ℤ × State
unfolding count_tail tracker_goto_last_cached_item_internal track_path_eq
lookup_in_tail a item_key from_index cur_twin s = tail_number s (
    count_tail a item_key (λ index. eqb_ℤ from_index unset || leb_ℤ from_index index)
      (λ twin path. track_path_eq path s.tk.cur) path_notype a.max_rounds cur_twin
      (tracker_goto_last_cached_item_internal a s))

-- `error` where the source would read a number that was not set.
abbrev pub or_lookup :
    (ℤ → State → Result ℤ × State) → Result (Unit {0}) × Option ℤ × State → Result ℤ × State
or_lookup tail (err no_item, some cur_twin, s) = tail cur_twin s
or_lookup tail (ok tt, some twin, s) = (ok twin, s)
or_lookup tail (err no_item, none, s) = (err error, s)
or_lookup tail (ok tt, none, s) = (err error, s)
or_lookup tail (err e, twin, s) = (err e, s)

-- The number of the tracker's item among those with its key, from `from_index` on.
unfoldable pub tracker_lookup_current_twin_index :
    Items → Tracker → Value → ℤ → State → Result ℤ × State
unfolding tracker_index_cache_lookup_current_twin_index lookup_in_tail
tracker_lookup_current_twin_index a new item_key from_index s =
    or_lookup (lookup_in_tail a item_key from_index) (
      tracker_index_cache_lookup_current_twin_index a new item_key
        (path_array_slice from_index unset) s)

-- A key with its number.
abbrev pub with_number : Value → Result ℤ × State → Result (Value × Option ℤ) × State
with_number item_key (ok nth_twin, s) = (ok (item_key, some nth_twin), s)
with_number item_key (err e, s) = (err e, s)

-- The caller may ask for the number, which `is_numbered` tells. An item key takes the box of the
-- item, the filters that are applied to it and the key expression.
unfoldable pub tracker_get_item_key__indexed_array_internal :
    Items → Tracker → ℤ → Bool → State → Result (Value × Option ℤ) × State
unfolding tracker_lookup_current_twin_index
tracker_get_item_key__indexed_array_internal a new from_index is_numbered s =
    if eqb_ℤ (index_of s) unset then (err error, s) else elim (a.item_key s.tk) [
      | err e ↦ (err e, s)
      | ok item_key ↦
          if is_numbered
          then with_number item_key (tracker_lookup_current_twin_index a new item_key from_index s)
          else (ok (item_key, none), s)
    ]

-- Twins are counted from the first item.
unfoldable pub tracker_get_item_key__indexed_array :
    Items → Tracker → Bool → State → Result (Value × Option ℤ) × State
unfolding tracker_get_item_key__indexed_array_internal
tracker_get_item_key__indexed_array a new =
    tracker_get_item_key__indexed_array_internal a new (pos 0)

-- The key is the index, and the number is 0.
unfoldable pub tracker_get_item_key__array_generic :
    Bool → State → Result (Value × Option ℤ) × State
tracker_get_item_key__array_generic is_numbered s =
    if eqb_ℤ (index_of s) unset
    then (err error, s)
    else (ok (integer (index_of s), if is_numbered then some (pos 0) else none), s)

-- The backend of an array.
abbrev pub get_item_key : Items → Tracker → Bool → State → Result (Value × Option ℤ) × State
get_item_key a new =
    if a.has_key_expr
    then tracker_get_item_key__indexed_array a new
    else tracker_get_item_key__array_generic

unfoldable pub tracker_get_item_key_internal :
    Items → Tracker → State → Result (Value × Option ℤ) × State
unfolding tracker_get_item_key__indexed_array tracker_get_item_key__array_generic
tracker_get_item_key_internal a new s =
    if tracker_is_dangling s.tk then (err no_item, s) else get_item_key a new false s

unfoldable pub tracker_get_item_key_multi_internal :
    Items → Tracker → State → Result (Value × Option ℤ) × State
unfolding tracker_get_item_key__indexed_array tracker_get_item_key__array_generic
tracker_get_item_key_multi_internal a new s =
    if tracker_is_dangling s.tk then (err no_item, s) else get_item_key a new true s
