-- ===== src/Runs/Box.antt =====
-- Runs of the boxes: a box that takes two bytes at least, in a parent that spans the first ten
-- bytes of its source; left-aligned, and right-aligned.
use bitpunch.Base.{true, false, ◌≡◌, refl, arith, some}
use bitpunch.Base.Int.{pos, ◌+ℤ◌, int_laws}
use bitpunch.Status.{ok, err, out_of_bounds_error, data_error}
use bitpunch.Browse.Box.{
  Box, span, used, unset, is_known, box_get_offset, box_get_known_start_offset,
  box_get_known_end_offset,
}
use bitpunch.Browse.Box.Check.{box_check_end_offset}
use bitpunch.Browse.Box.Place.{
  box_construct, box_set_size, box_inherit_boundary_offset, box_set_used_size,
}
use bitpunch.Browse.Box.UsedSize.{box_set_used_size-ralign}
use bitpunch.Browse.Box.Placed.{IsPlaced, box_set_size-small}
use bitpunch.Browse.Box.Life.{Placing, constructed, inherited, sized, Placing-IsPlaced}

abbrev outer : Box
outer = record {
  start_offset_parent = pos 0;
  start_offset_slack = pos 0;
  start_offset_max_span = pos 0;
  start_offset_span = pos 0;
  start_offset_min_span = pos 0;
  start_offset_used = pos 0;
  end_offset_parent = pos 10;
  end_offset_slack = pos 10;
  end_offset_max_span = pos 10;
  end_offset_span = pos 10;
  end_offset_min_span = unset;
  end_offset_used = pos 10;
  is_ralign = false;
  is_overlay = true;
  filter_min_span_size = pos 2;
}

-- Four bytes into the parent, with its inherited limits.
abbrev pub fresh : Box
fresh = record {
  start_offset_parent = pos 4;
  start_offset_slack = pos 4;
  start_offset_max_span = pos 4;
  start_offset_span = pos 4;
  start_offset_min_span = pos 4;
  start_offset_used = pos 4;
  end_offset_parent = unset;
  end_offset_slack = unset;
  end_offset_max_span = unset;
  end_offset_span = unset;
  end_offset_min_span = unset;
  end_offset_used = unset;
  is_ralign = false;
  is_overlay = true;
  filter_min_span_size = pos 2;
}

abbrev placed : Box
placed = record fresh { end_offset_parent = pos 10 }

abbrev spanned : Box
spanned = record placed { end_offset_span = pos 9 }

fresh_run : box_construct (some 0) (pos 2) false true (pos 4) ≡ ok (fresh, 1)
unfolding box_construct
fresh_run = refl

placed_run : placed ≡ box_inherit_boundary_offset fresh outer
unfolding box_inherit_boundary_offset box_get_known_start_offset box_get_known_end_offset
placed_run = refl

spanned_run : box_set_size placed (pos 5) span ≡ ok spanned
unfolding box_set_size box_check_end_offset is_known box_get_offset ◌+ℤ◌
spanned_run = refl

too_far : box_set_size placed (pos 7) span ≡ err out_of_bounds_error
unfolding box_set_size box_check_end_offset is_known box_get_offset ◌+ℤ◌
too_far = refl

too_deep : box_construct (some 4096) (pos 2) false true (pos 4) ≡ err data_error
unfolding box_construct
too_deep = refl

spanned_life : Placing spanned
spanned_life =
    sized placed spanned (pos 5) span
      (inherited fresh outer placed
        (constructed (some 0) (pos 2) (pos 4) false true fresh 1 fresh_run refl) placed_run)
      spanned_run

placed_example : IsPlaced spanned
placed_example = Placing-IsPlaced spanned spanned_life

small_example : box_set_size spanned (pos 1) used ≡ err out_of_bounds_error
small_example = box_set_size-small spanned (pos 1) used placed_example refl (omega arith)

-- The same box at the end of the parent, its span known to start at 6.
abbrev right : Box
right = record fresh {
  start_offset_parent = pos 0;
  start_offset_slack = pos 0;
  start_offset_max_span = pos 0;
  start_offset_span = pos 6;
  start_offset_min_span = unset;
  start_offset_used = unset;
  end_offset_parent = pos 10;
  end_offset_slack = pos 10;
  end_offset_max_span = pos 10;
  end_offset_span = pos 10;
  end_offset_min_span = pos 10;
  end_offset_used = pos 10;
  is_ralign = true;
  is_overlay = false;
}

is_known_six : is_known (pos 6) ≡ true
unfolding is_known
is_known_six = refl

used_example : box_set_used_size right (pos 5) ≡ err out_of_bounds_error
used_example = box_set_used_size-ralign right (pos 5) refl is_known_six (omega int_laws)
