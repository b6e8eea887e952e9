-- ===== src/Arrays/IndexCache/Nth.antt =====
-- libbitpunch/src/filters/array.c: the move to an item of variable size by its index, through the
-- cache.
use bitpunch.Base.{ℕ, zero, suc, not, if◌then◌else◌, Option, none, some}
use bitpunch.Base.Int.{ℤ, pos, eqb_ℤ, ltb_ℤ, leb_ℤ, ◌+ℤ◌}
use bitpunch.Status.{Result, ok, err, error, no_item}
use bitpunch.Expr.Values.{Value}
use bitpunch.Arrays.Tracker.{Tracker, tracker_is_dangling}
use bitpunch.Arrays.IndexCache.{
  Items, State, Op, andthen, go_next, index_of, index_cache_exists, array_get_index_mark,
  tracker_index_cache_add_item,
}
use bitpunch.Arrays.IndexCache.Moves.{
  tracker_goto_mark_internal, tracker_goto_last_cached_item_internal,
}
use bitpunch.Base.{true, false}
use bitpunch.Arrays.Tracker.{with_index}
use bitpunch.Arrays.IndexCache.Keyed.{set_if_ok}
use bitpunch.Arrays.IndexCache.ItemKey.{tracker_get_item_key_internal}

abbrev pub add_keyed : Result (Value × Option ℤ) × State → Result (Unit {0}) × State
add_keyed (ok (item_key, number), s) = (ok tt, tracker_index_cache_add_item item_key s)
add_keyed (err e, s) = (err e, s)

-- The item behind the last cached one is cached.
abbrev pub cache_next : Items → Tracker → Op
cache_next a new s =
    if eqb_ℤ (index_of s) (s.cache.last_cached_index +ℤ pos 1)
    then (if index_cache_exists s.cache
        then add_keyed (tracker_get_item_key_internal a new s)
        else (ok tt, tracker_index_cache_add_item Value.unset s))
    else (ok tt, s)

-- The loop to the item `index`, which caches the items on its way.
unfoldable pub nth_loop : Items → Tracker → ℤ → ℕ → Op
unfolding tracker_index_cache_add_item tracker_get_item_key_internal
nth_loop a new index zero s = (err error, s)
nth_loop a new index (suc left) s = andthen (cache_next a new s) (λ s'.
    elim (eqb_ℤ (index_of s') index) [
      | true ↦ (ok tt, s')
      | false ↦ andthen (go_next a s') (nth_loop a new index left)
    ])

-- To the mark of an item that is cached, or else to the last cached item, or to the first item
-- where none is. The index is not negative: `error` for one that is.
unfoldable pub start_nth : Items → ℤ → Op
unfolding tracker_goto_mark_internal tracker_goto_last_cached_item_internal array_get_index_mark
start_nth a index s =
    let xs = tracker_goto_last_cached_item_internal a s in
    if ltb_ℤ index s.cache.last_cached_index
    then elim (array_get_index_mark s.cache index) [
      | some mark ↦ tracker_goto_mark_internal a mark s
      | none ↦ (err error, s)
    ]
    else (if tracker_is_dangling xs.tk then go_next a xs else (ok tt, xs))

unfoldable pub tracker_goto_nth_item__array_var_item_size : Items → Tracker → ℤ → Op
unfolding start_nth nth_loop
tracker_goto_nth_item__array_var_item_size a new index s =
    set_if_ok s (andthen (start_nth a index s) (nth_loop a new index a.max_rounds))

-- The number of items is what box_get_n_items_internal() finds.
unfoldable pub tracker_goto_nth_item__array_non_slack_var_item_size :
    Items → Result ℤ → Tracker → ℤ → Op
unfolding tracker_goto_nth_item__array_var_item_size
tracker_goto_nth_item__array_non_slack_var_item_size a (err e) new index s = (err e, s)
tracker_goto_nth_item__array_non_slack_var_item_size a (ok n_items) new index s =
    if leb_ℤ n_items index
    then (err no_item, s)
    else (if not s.tk.need_item_offset
        then (
          ok tt,
          record s {
            tk = record s.tk {
              has_filter = true;
              has_item = true;
              at_end = false;
              cur = with_index s.tk.cur index;
            };
          },
        )
        else tracker_goto_nth_item__array_var_item_size a new index s)
