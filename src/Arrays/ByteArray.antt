-- ===== src/Arrays/ByteArray.antt =====
-- libbitpunch/src/filters/byte_array.c, and the item count of array.c that it shares: the
-- backends of an array of bytes.
use bitpunch.Base.{Bool, true, false, not, ◌&&◌, ◌||◌, if◌then◌else◌}
use bitpunch.Base.Int.{ℤ, pos, eqb_ℤ, ltb_ℤ, leb_ℤ, ◌+ℤ◌, ◌-ℤ◌}
use bitpunch.Status.{Result, ok, err, data_error, no_item, not_implemented}
use bitpunch.Expr.Values.{Value, integer}
use bitpunch.Browse.Box.{unset}
use bitpunch.Browse.Box.Place.{box_set_used_size}
use bitpunch.Arrays.Tracker.{
  Tracker, State, Op, Array, path_array, path_index, with_index, ◌>>◌, pure, fail, modify, on_box,
  if_fails, tracker_set_end, tracker_check_item,
}

-- The value of the size expression as a count.
unfoldable pub count_of : Result Value → Result ℤ
count_of (ok (integer n)) = if ltb_ℤ n (pos 0) then err data_error else ok n
count_of (ok _) = err data_error
count_of (err status) = err status

unfoldable pub compute_item_size__byte_array_var_size : Array → Result ℤ
unfolding count_of
compute_item_size__byte_array_var_size a = count_of a.item_count

abbrev put_n_items : Result ℤ → Op
put_n_items (ok n) s = (ok tt, record s { n_items = n })
put_n_items (err status) s = (err status, s)

-- The output of this and of the next function is `n_items` of the state that they leave.
unfoldable pub box_get_n_items__array_non_slack : Array → Op
unfolding count_of
box_get_n_items__array_non_slack a s =
    if eqb_ℤ s.n_items unset then put_n_items (count_of a.item_count) s else pure s

abbrev slack_items : Op
slack_items s =
    let n = s.box.end_offset_slack -ℤ s.box.start_offset_span in
    on_box (λ box. box_set_used_size box n) (record s { n_items = n })

unfoldable pub box_get_n_items__byte_array_slack : Array → Op
box_get_n_items__byte_array_slack a s =
    if eqb_ℤ s.n_items unset then (on_box a.compute_slack_size >> slack_items) s else pure s

-- box_get_n_items_internal, with the backend that compile_node_backends__box__byte_array sets.
unfoldable pub box_get_n_items : Array → Op
unfolding box_get_n_items__array_non_slack box_get_n_items__byte_array_slack
box_get_n_items a =
    on_box a.apply_parent_filter
    >> (if a.has_item_count
        then box_get_n_items__array_non_slack a
        else box_get_n_items__byte_array_slack a)

unfoldable pub box_compute_used_size__byte_array_var_size : Array → Op
unfolding box_get_n_items
box_compute_used_size__byte_array_var_size a =
    box_get_n_items a >> (λ s. on_box (λ box. box_set_used_size box s.n_items) s)

abbrev step_index : ℤ → Tracker → Tracker
step_index by tk = record tk {
  cur = with_index tk.cur (path_index tk.cur +ℤ by);
  item_offset = if tk.need_item_offset then tk.item_offset +ℤ by else tk.item_offset;
}

abbrev back_index : ℤ → Tracker → Tracker
back_index by tk = record tk {
  cur = with_index tk.cur (path_index tk.cur -ℤ by);
  item_offset = if tk.need_item_offset then tk.item_offset -ℤ by else tk.item_offset;
}

abbrev is_past_end : State → Bool
is_past_end s =
    (not (eqb_ℤ s.n_items unset) && eqb_ℤ (path_index s.tk.cur) s.n_items)
    || (eqb_ℤ s.n_items unset && eqb_ℤ s.tk.item_offset s.box.end_offset_slack)

-- The part behind `++tk->cur.u.array.index` and the move of the offset.
unfoldable pub check_next : Array → Op
check_next a s =
    if is_past_end s
    then (modify tracker_set_end >> fail no_item) s
    else if_fails ((modify (λ tk. record tk { has_filter = true }) >> tracker_check_item a) s)
        (λ s'. record s' { tk = back_index (pos 1) s'.tk })

unfoldable pub tracker_goto_next_item__byte_array : Array → Op
unfolding check_next
tracker_goto_next_item__byte_array a = modify (step_index (pos 1)) >> check_next a

abbrev at_index : ℤ → Tracker → Tracker
at_index index tk = record tk { at_end = false; has_filter = true; cur = path_array index }

-- The part behind the number of items.
unfoldable pub go_to_item : Array → ℤ → Op
go_to_item a index s =
    if leb_ℤ s.n_items index
    then fail no_item s
    else if not s.tk.need_item_offset
    then modify (at_index index) s
    else (modify (λ tk. record (at_index index tk) {
      item_offset = s.box.start_offset_used +ℤ index;
      item_size = pos 1;
    })
          >> tracker_check_item a)
        s

unfoldable pub tracker_goto_nth_item__byte_array : Array → ℤ → Op
unfolding box_get_n_items go_to_item
tracker_goto_nth_item__byte_array a index s =
    if s.tk.reversed || s.box.is_ralign
    then fail not_implemented s
    else (box_get_n_items a >> go_to_item a index) s

unfoldable pub tracker_goto_end_path__array : Array → Op
unfolding box_get_n_items
tracker_goto_end_path__array a =
    box_get_n_items a >> (λ s. modify (λ tk. record tk { cur = path_array s.n_items }) s)
