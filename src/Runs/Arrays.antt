-- ===== src/Runs/Arrays.antt =====
-- Runs of the trackers: bytes 3 to 6 of an array of ten bytes, and a slice behind 2 ^ 31 bytes.
use bitpunch.Base.{ℕ, true, false, ◌≡◌, refl, inl, arith}
use bitpunch.Base.Int.{pos, negsuc}
use bitpunch.Status.{ok, err, no_item}
use bitpunch.Expr.Values.{integer}
use bitpunch.Browse.Box.{Box, unset}
use bitpunch.Arrays.Tracker.{State, Array, path_array}
use bitpunch.Arrays.Slice.{
  Slice, tracker_goto_nth_item__array_slice, tracker_goto_first_item__array_slice, count_slice,
}
use bitpunch.Arrays.Walk.{IsReady}
use bitpunch.Arrays.SliceWalk.{IsWithin, nexts, slice_walk, slice_walk_end}
use bitpunch.Arrays.Truncation.{slice_first_truncated}

abbrev box_of : ℕ → ℕ → Box
box_of start end = record {
  start_offset_parent = pos start;
  start_offset_slack = pos start;
  start_offset_max_span = pos start;
  start_offset_span = pos start;
  start_offset_min_span = pos start;
  start_offset_used = pos start;
  end_offset_parent = pos end;
  end_offset_slack = pos end;
  end_offset_max_span = pos end;
  end_offset_span = pos end;
  end_offset_min_span = pos end;
  end_offset_used = pos end;
  is_ralign = false;
  is_overlay = true;
  filter_min_span_size = pos 0;
}

abbrev array_of : ℕ → Array
array_of n = record {
  item_count = ok (integer (pos n));
  has_item_count = true;
  item_filter = ok true;
  item_min_span_size = pos 1;
  computing_slack_child_allocation = false;
  apply_parent_filter = λ box. ok box;
  compute_slack_size = λ box. ok box;
  compute_item_offset = λ s. (ok tt, s);
  compute_item_location = λ s. (ok tt, record s { tk = record s.tk { item_size = pos 1 } });
}

abbrev nowhere : ℕ → State
nowhere n = record {
  tk = record {
    cur = path_array unset;
    has_filter = false;
    has_item = false;
    at_end = false;
    need_item_offset = false;
    reversed = false;
    item_offset = unset;
    item_size = unset;
  };
  box = box_of 0 n;
  n_items = unset;
  slice_n_items = unset;
}

abbrev part : ℕ → ℕ → Slice
part b e = record { index_start = pos b; index_end = pos e; slice_box = box_of b e }

nowhere-IsReady : (n : ℕ) → IsReady (array_of n) n (nowhere n)
nowhere-IsReady n = record {
  counted = refl;
  count = refl;
  applied = refl;
  items = refl;
  left = refl;
  forward = refl;
  lazy = refl;
  no_offset = refl;
  cached = inl refl;
}

part-IsWithin : IsWithin (part 3 7) (array_of 10) 3 7 10
part-IsWithin = record {
  from = refl;
  to = refl;
  left = refl;
  some_items = omega arith;
  inside = omega arith;
  small = omega arith;
  located = λ s standing. refl;
}

walk_example :
    ((nexts (part 3 7) (array_of 10) 3 (nowhere 10)).0 ≡ ok tt)
    × ((nexts (part 3 7) (array_of 10) 3 (nowhere 10)).1.tk.cur ≡ path_array (pos 5))
    × ((tracker_goto_nth_item__array_slice (part 3 7) (array_of 10) (pos 2) (nowhere 10)).0 ≡ ok tt)
    × ((tracker_goto_nth_item__array_slice (part 3 7) (array_of 10) (pos 2) (nowhere 10)).1.tk.cur
        ≡ path_array (pos 5))
walk_example =
    slice_walk (part 3 7) (array_of 10) 3 7 10 2 (nowhere 10) part-IsWithin (nowhere-IsReady 10)
      refl refl (omega arith)

walk_end_example :
    ((nexts (part 3 7) (array_of 10) 5 (nowhere 10)).0 ≡ err no_item)
    × ((tracker_goto_nth_item__array_slice (part 3 7) (array_of 10) (pos 4) (nowhere 10)).0
        ≡ err no_item)
    × (count_slice (part 3 7) (pos 10) ≡ pos 4)
walk_end_example =
    slice_walk_end (part 3 7) (array_of 10) 3 7 10 (nowhere 10) part-IsWithin (nowhere-IsReady 10)
      refl refl

truncated_example :
    ((tracker_goto_first_item__array_slice
        (part 2147483650 2147483660)
        (array_of 3000000000)
        (nowhere 3000000000)).0
      ≡ ok tt)
    × ((tracker_goto_first_item__array_slice
          (part 2147483650 2147483660)
          (array_of 3000000000)
          (nowhere 3000000000)).1.tk.cur
        ≡ path_array (negsuc 2147483645))
truncated_example =
    slice_first_truncated (part 2147483650 2147483660) (array_of 3000000000) 2147483650 2147483660
      3000000000 (nowhere 3000000000) refl refl (omega arith) (omega arith) (omega arith)
      (nowhere-IsReady 3000000000)
