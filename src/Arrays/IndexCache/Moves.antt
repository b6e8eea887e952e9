-- ===== src/Arrays/IndexCache/Moves.antt =====
-- libbitpunch/src/filters/array_index_cache.c: the moves of a tracker to a mark and to the last cached item.
use bitpunch.Base.{ℕ, Bool, true, false, not, if◌then◌else◌, none, some}
use bitpunch.Base.Int.{ℤ, eqb_ℤ, ◌+ℤ◌, ◌*ℤ◌}
use bitpunch.Status.{ok, err}
use bitpunch.Browse.Box.{unset}
use bitpunch.Arrays.Tracker.{Tracker, path_array, with_index, tracker_set_dangling}
use bitpunch.Arrays.IndexCache.{
  ArrayCache, Items, State, Op, array_get_mark_start_index, array_get_mark_offset_at_index,
}

unfoldable pub tracker_rewind : Tracker → Tracker
unfolding tracker_set_dangling
tracker_rewind tk = record (tracker_set_dangling tk) {
  need_item_offset = false;
  item_offset = unset;
}

unfoldable pub mark_item_offset : Items → ArrayCache → ℤ → ℤ
unfolding array_get_mark_offset_at_index
mark_item_offset a cache index = elim cache.mark_offsets [
  | some offsets ↦ array_get_mark_offset_at_index cache offsets index
  | none ↦ a.start_offset_span +ℤ (index *ℤ a.item_min_span_size)
]

unfoldable pub tracker_goto_mark_internal : Items → ℕ → Op
unfolding tracker_set_dangling array_get_mark_start_index mark_item_offset
tracker_goto_mark_internal a mark s = elim a.item_type [
  | err e ↦ (err e, s)
  | ok is_variable ↦
      let index = array_get_mark_start_index s.cache mark in
      (
        ok tt,
        record s {
          tk = record (tracker_set_dangling s.tk) {
            need_item_offset = true;
            has_filter = true;
            has_item = true;
            cur = path_array index;
            item_offset = mark_item_offset a s.cache index;
          };
        },
      )
]

abbrev is_span_size_variable : Items → Bool
is_span_size_variable a = elim a.item_type [ ok is_variable ↦ is_variable | err e ↦ false ]

unfoldable pub tracker_goto_last_cached_item_internal : Items → State → State
unfolding tracker_rewind
tracker_goto_last_cached_item_internal a s =
    let tk =
      if not (eqb_ℤ s.cache.last_cached_index unset)
      then record s.tk {
        has_filter = true;
        has_item = s.cache.last_cached_item;
        item_size = if is_span_size_variable a then unset else s.tk.item_size;
        item_offset = s.cache.last_cached_item_offset;
        at_end = false;
        cur = with_index s.tk.cur s.cache.last_cached_index;
      }
      else tracker_rewind s.tk in
    record s { tk = record tk { need_item_offset = true } }
