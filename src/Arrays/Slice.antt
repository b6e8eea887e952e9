-- ===== src/Arrays/Slice.antt =====
-- libbitpunch/src/filters/array_slice.c: the part of an array between two indexes.
use bitpunch.Base.{◌-◌, ◌%◌, ◌^◌, Bool, true, not, ◌&&◌, ◌||◌, if◌then◌else◌, ltb}
use bitpunch.Base.Int.{ℤ, pos, negsuc, sub_ℕ, eqb_ℤ, ltb_ℤ, leb_ℤ, ◌+ℤ◌, ◌-ℤ◌}
use bitpunch.Status.{Result, ok, err, data_error, invalid_param, no_item, not_implemented}
use bitpunch.Browse.Box.{Box, unset}
use bitpunch.Arrays.Tracker.{
  Tracker, State, Op, Array, TrackPath, path_array, path_array_slice, path_index, with_index, ◌>>◌,
  pure, fail, modify, tracker_set_end, tracker_is_dangling, tracker_set_dangling,
  tracker_check_item,
}
use bitpunch.Arrays.ByteArray.{
  box_get_n_items, tracker_goto_nth_item__byte_array, tracker_goto_next_item__byte_array,
}

-- The box of a slice with its track path. The slice is taken straight from an array of bytes,
-- whose box is the one of the state: `tk->box` in the backends of the array.
pub record Slice : Type 0 where
  pub index_start : ℤ
  pub index_end : ℤ
  pub slice_box : Box

-- box_new_slice_box, the indexes of the slice: those of the two trackers, the second one of
-- which may be missing (-1) and has to track the same box.
unfoldable pub slice_path : Bool → ℤ → ℤ → Result TrackPath
slice_path same_box first last =
    if not same_box
    then err invalid_param
    else (let index_start = if eqb_ℤ first unset then pos 0 else first in
        if not (eqb_ℤ last unset) && ltb_ℤ last index_start
        then err data_error
        else ok (path_array_slice index_start last))

-- `-1 == index ? 0 : index`
abbrev pub first_index : ℤ → ℤ
first_index index = if eqb_ℤ index unset then pos 0 else index

-- box_get_n_items__slice_generic, behind the number of items of the parent.
unfoldable pub count_slice : Slice → ℤ → ℤ
count_slice slice array_n_items =
    let limit = slice.index_start +ℤ array_n_items in
    let index_end =
      if eqb_ℤ slice.index_end unset || ltb_ℤ limit slice.index_end
      then limit
      else slice.index_end in
    let index_start =
      if eqb_ℤ slice.index_start unset
      then pos 0
      else (if ltb_ℤ index_end slice.index_start then index_end else slice.index_start) in
    index_end -ℤ index_start

unfoldable pub box_get_n_items__slice : Slice → Array → Op
unfolding count_slice
box_get_n_items__slice slice a s =
    if eqb_ℤ s.slice_n_items unset
    then (box_get_n_items a
          >> (λ s'. (ok tt, record s' { slice_n_items = count_slice slice s'.n_items })))
        s
    else pure s

-- tracker_get_item_key__array_slice for an array that is not indexed: the key of the item.
unfoldable pub tracker_get_item_key__array_slice : Slice → Tracker → ℤ
tracker_get_item_key__array_slice slice tk = path_index tk.cur -ℤ first_index slice.index_start

-- The conversion of an `int64_t` to an `int`, which keeps the low 32 bits.
unfoldable pub to_int : ℤ → ℤ
to_int (pos n) = let low = n % 2 ^ 32 in sub_ℕ low (if ltb low (2 ^ 31) then 0 else 2 ^ 32)
to_int (negsuc n) =
    let low = 2 ^ 32 - 1 - n % 2 ^ 32 in sub_ℕ low (if ltb low (2 ^ 31) then 0 else 2 ^ 32)

unfoldable pub tracker_goto_first_item__array_slice : Slice → Array → Op
unfolding to_int
tracker_goto_first_item__array_slice slice a =
    if not (eqb_ℤ slice.index_start unset) && eqb_ℤ slice.index_start slice.index_end
    then (modify (λ tk. tracker_set_end (record tk {
      cur = path_array_slice slice.index_start slice.index_end;
      item_offset = slice.slice_box.start_offset_span;
    }))
        >> fail no_item)
    else (let index = to_int slice.index_start in
        tracker_goto_nth_item__byte_array a (first_index index))

unfoldable pub tracker_goto_next_item__array_slice : Slice → Array → Op
tracker_goto_next_item__array_slice slice a s =
    if s.tk.reversed || slice.slice_box.is_ralign
    then fail not_implemented s
    else (if eqb_ℤ (path_index s.tk.cur +ℤ pos 1) slice.index_end
          then a.compute_item_location
            >> modify (λ tk. tracker_set_end (record tk {
              cur = with_index tk.cur (path_index tk.cur +ℤ pos 1);
              item_offset = tk.item_offset +ℤ tk.item_size;
            }))
            >> fail no_item
          else tracker_goto_next_item__byte_array a)
        s

unfoldable pub tracker_goto_nth_item__array_slice : Slice → Array → ℤ → Op
tracker_goto_nth_item__array_slice slice a index =
    let index_start = first_index slice.index_start in
    if not (eqb_ℤ slice.index_end unset) && leb_ℤ (slice.index_end -ℤ index_start) index
    then fail no_item
    else tracker_goto_nth_item__byte_array a (index_start +ℤ index)

unfoldable pub tracker_goto_end_path__array_slice : Slice → Array → Op
unfolding box_get_n_items__slice
tracker_goto_end_path__array_slice slice a = box_get_n_items__slice slice a >> (λ s.
    modify (λ tk. record tk { cur = path_array (first_index slice.index_start +ℤ s.slice_n_items) })
      s)

-- tracker_check_item with `tk->box` the box of the slice.
unfoldable pub check_in_slice : Slice → Array → Op
check_in_slice slice a s =
    let (r, s') = tracker_check_item a (record s { box = slice.slice_box }) in
    (r, record s' { box = s.box })

-- The offset that an iteration starts from, where one is kept; `r` is what the backend returned.
unfoldable pub place_first : Slice → Array → Result (Unit {0}) → Op
unfolding check_in_slice
place_first slice a r s =
    if s.tk.need_item_offset
    then (modify (λ tk. record tk {
      item_offset =
          if tk.reversed
          then slice.slice_box.end_offset_span
          else slice.slice_box.start_offset_span;
    })
          >> check_in_slice slice a
          >> (λ s'. (r, s')))
        s
    else (r, s)

unfoldable pub after_first : Slice → Array → Result (Unit {0}) × State → Result (Unit {0}) × State
unfolding place_first
after_first slice a (ok tt, s) = place_first slice a (ok tt) s
after_first slice a (err no_item, s) =
    place_first slice a (err no_item) (record s { tk = record s.tk { at_end = true } })
after_first slice a (err status, s) = (err status, s)

-- tracker_goto_first_item_internal and tracker_goto_next_item_internal in a slice.
unfoldable pub tracker_goto_first_item : Slice → Array → Op
unfolding tracker_goto_first_item__array_slice after_first
tracker_goto_first_item slice a s = after_first slice a (
    tracker_goto_first_item__array_slice slice a
      (record s { tk = record (tracker_set_dangling s.tk) { item_offset = unset } }))

unfoldable pub tracker_goto_next_item : Slice → Array → Op
unfolding tracker_goto_first_item tracker_goto_next_item__array_slice
tracker_goto_next_item slice a s =
    if s.tk.at_end
    then fail no_item s
    else if tracker_is_dangling s.tk
    then tracker_goto_first_item slice a s
    else tracker_goto_next_item__array_slice slice a s
