-- ===== src/Browse/Box/UsedSize.antt =====
-- libbitpunch/src/core/browse.c: the used size of a right-aligned box.
use bitpunch.Base.{true, ◌≡◌, arith}
use bitpunch.Base.Int.{ℤ, ◌<ℤ◌, ◌-ℤ◌, int_laws}
use bitpunch.Status.{err, out_of_bounds_error}
use bitpunch.Browse.Box.{Box, is_known}
use bitpunch.Browse.Box.Check.{box_check_start_offset}
use bitpunch.Browse.Box.Place.{box_set_used_size, box_set_size, box_set_start_offset}

-- In a right-aligned box with a known span, a used size that exceeds the span is refused with
-- BITPUNCH_OUT_OF_BOUNDS_ERROR, also when the box is not an overlay.
pub box_set_used_size-ralign :
    (box : Box) (size : ℤ)
    → box.is_ralign ≡ true
    → is_known box.start_offset_span ≡ true
    → (box.end_offset_span -ℤ box.start_offset_span) <ℤ size
    → box_set_used_size box size ≡ err out_of_bounds_error
unfolding box_set_size box_set_start_offset box_check_start_offset
box_set_used_size-ralign box size r k far =
    let short : (box.end_offset_span -ℤ size) <ℤ box.start_offset_span = omega int_laws in
    ground arith
