-- ===== src/Browse/Box.antt =====
-- libbitpunch/src/core/browse.c and include/core/browse.h: a box, its offsets and the way they
-- are read. Offsets are `int64_t`; sums of them are taken in ℤ, as C leaves overflow undefined.
pub mod Check
pub mod Place
pub mod Order
pub mod Placed
pub mod Life
pub mod UsedSize
use bitpunch.Base.{Bool, true, ◌&&◌, not, if◌then◌else◌}
use bitpunch.Base.Int.{ℤ, pos, negsuc, leb_ℤ, ◌+ℤ◌, ◌-ℤ◌}

-- The limits of a box, from the ones inherited from its parent to the size that its filter
-- takes at least; `used` delimits the output of the filter.
pub data Level : Type 0 where
  hard_min min_span span max_span slack parent used : Level

-- `enum box_offset_type`: a limit at the start or at the end.
pub data OffsetType : Type 0 where
  start_offset end_offset : Level → OffsetType

-- -1, for an offset that is not known.
abbrev pub unset : ℤ
unset = negsuc 0

-- `struct box`: the offsets and the flags that govern them. `filter_min_span_size` is
-- ast_node_get_min_span_size(box->filter).
pub record Box : Type 0 where
  pub start_offset_parent : ℤ
  pub start_offset_slack : ℤ
  pub start_offset_max_span : ℤ
  pub start_offset_span : ℤ
  pub start_offset_min_span : ℤ
  pub start_offset_used : ℤ
  pub end_offset_parent : ℤ
  pub end_offset_slack : ℤ
  pub end_offset_max_span : ℤ
  pub end_offset_span : ℤ
  pub end_offset_min_span : ℤ
  pub end_offset_used : ℤ
  pub is_ralign : Bool
  pub is_overlay : Bool
  pub filter_min_span_size : ℤ

-- `offset >= 0`.
unfoldable pub is_known : ℤ → Bool
is_known offset = leb_ℤ (pos 0) offset

unfoldable pub box_get_offset : Box → OffsetType → ℤ
box_get_offset box (start_offset hard_min) = box.end_offset_span -ℤ box.filter_min_span_size
box_get_offset box (start_offset min_span) = box.start_offset_min_span
box_get_offset box (start_offset span) = box.start_offset_span
box_get_offset box (start_offset max_span) = box.start_offset_max_span
box_get_offset box (start_offset slack) = box.start_offset_slack
box_get_offset box (start_offset parent) = box.start_offset_parent
box_get_offset box (start_offset used) = box.start_offset_used
box_get_offset box (end_offset hard_min) = box.start_offset_span +ℤ box.filter_min_span_size
box_get_offset box (end_offset min_span) = box.end_offset_min_span
box_get_offset box (end_offset span) = box.end_offset_span
box_get_offset box (end_offset max_span) = box.end_offset_max_span
box_get_offset box (end_offset slack) = box.end_offset_slack
box_get_offset box (end_offset parent) = box.end_offset_parent
box_get_offset box (end_offset used) = box.end_offset_used

-- A set of limits, for the bit mask of the source.
abbrev pub Mask : Type 0
Mask = Level → Bool

abbrev pub all_levels : Mask
all_levels _ = true

unfoldable pub box_get_known_start_offset_mask : Box → Mask → ℤ
unfolding is_known
box_get_known_start_offset_mask box mask =
    if mask used && is_known box.start_offset_used
    then box.start_offset_used
    else if mask span && is_known box.start_offset_span
    then box.start_offset_span
    else if mask max_span && is_known box.start_offset_max_span
    then box.start_offset_max_span
    else if mask slack && is_known box.start_offset_slack
    then box.start_offset_slack
    else if mask parent
    then box.start_offset_parent
    else unset

unfoldable pub box_get_known_start_offset : Box → ℤ
unfolding box_get_known_start_offset_mask
box_get_known_start_offset box = box_get_known_start_offset_mask box all_levels

unfoldable pub box_get_known_end_offset_mask : Box → Mask → ℤ
unfolding is_known
box_get_known_end_offset_mask box mask =
    if mask used && is_known box.end_offset_used
    then box.end_offset_used
    else if mask span && is_known box.end_offset_span
    then box.end_offset_span
    else if mask max_span && is_known box.end_offset_max_span
    then box.end_offset_max_span
    else if mask slack && is_known box.end_offset_slack
    then box.end_offset_slack
    else if mask parent
    then box.end_offset_parent
    else unset

unfoldable pub box_get_known_end_offset : Box → ℤ
unfolding box_get_known_end_offset_mask
box_get_known_end_offset box = box_get_known_end_offset_mask box all_levels

unfoldable pub box_get_known_end_offset_type : Box → OffsetType
unfolding is_known
box_get_known_end_offset_type box =
    if is_known box.end_offset_used
    then end_offset used
    else if is_known box.end_offset_span
    then end_offset span
    else if is_known box.end_offset_max_span
    then end_offset max_span
    else if is_known box.end_offset_slack
    then end_offset slack
    else end_offset parent
