-- ===== src/Browse/Box/Placed.antt =====
-- What the setters and the constructor of a box achieve together.
use bitpunch.Base.{Bool, true, false, ◌||◌, not, ◌≡◌, ◌⊎◌, inl, inr, refl, arith}
use bitpunch.Base.Int.{ℤ, ◌≤ℤ◌, ◌<ℤ◌, ◌+ℤ◌, ◌-ℤ◌, int_laws}
use bitpunch.Status.{ok, err, out_of_bounds_error, ◌>>◌}
use bitpunch.Browse.Box.{Box, Level, hard_min, min_span, span, max_span, slack, parent, used}
use bitpunch.Browse.Box.Check.{
  Checked, box_check_start_offset, box_check_end_offset, start_outer_slack, start_outer_span,
  start_outer_used, start_outer_min_span, start_inner_min_span, start_inner_used, start_inner_span,
  start_inner_slack, start_inner_parent, end_outer_slack, end_outer_span, end_outer_used,
  end_outer_min_span, end_inner_min_span, end_inner_used, end_inner_span, end_inner_slack,
  end_inner_parent,
}
use bitpunch.Browse.Box.Place.{box_set_size}
use bitpunch.Browse.Box.Order.{
  IsEndOrdered, IsStartOrdered, >>-eq-ok, checked_other, checked_overlay,
}
use bitpunch.Browse.Box.Order.Start.{
  start_hard_min-min_span, start_hard_min-used, start_hard_min-span, start_hard_min-slack,
  start_hard_min-parent,
}
use bitpunch.Browse.Box.Order.SetStart.{box_set_start_offset-IsStartOrdered}
use bitpunch.Browse.Box.Order.End.{
  end_hard_min-min_span, end_hard_min-used, end_hard_min-span, end_hard_min-slack,
  end_hard_min-parent,
}
use bitpunch.Browse.Box.Order.SetEnd.{box_set_end_offset-IsEndOrdered}

-- The limits at the free end lie in order: the start of a right-aligned box, else the end.
abbrev pub IsPlacedAt : Bool → Box → Type 0
IsPlacedAt true box = IsStartOrdered box
IsPlacedAt false box = IsEndOrdered box

abbrev pub IsPlaced : Box → Type 0
IsPlaced box = IsPlacedAt box.is_ralign box

-- The limits that the setters compare with the size that the filter takes at least.
abbrev pub is_limited : Box → Level → Bool
is_limited box hard_min = false
is_limited box used = box.is_ralign || box.is_overlay
is_limited box _ = true

or-false : {a b : Bool} → a ≡ false → (a || b) ≡ true → b ≡ true
or-false e h = ground arith

check_start-hard_min :
    (box : Box) (offset : ℤ) (level : Level)
    → IsStartOrdered box
    → box.is_ralign ≡ true
    → is_limited box level ≡ true
    → box_check_start_offset box offset level ≡ ok tt
    → offset ≤ℤ (box.end_offset_span -ℤ box.filter_min_span_size)
unfolding box_check_start_offset
check_start-hard_min box offset hard_min v r l e = cc
check_start-hard_min box offset min_span v r l e =
    start_hard_min-min_span box offset v
      (>>-eq-ok (start_outer_min_span box offset) (start_inner_min_span box offset) (
        checked_other (not box.is_overlay)
          (start_outer_min_span box offset >> start_inner_min_span box offset) e)).1
      refl
check_start-hard_min box offset span v r l e =
    start_hard_min-span box offset v
      (>>-eq-ok (start_outer_span box offset) (start_inner_span box offset) (
        checked_other (not box.is_overlay)
          (start_outer_span box offset >> start_inner_span box offset) e)).1
      refl
check_start-hard_min box offset max_span v r l e =
    start_hard_min-slack box offset v
      (checked_other (not box.is_overlay) (start_inner_slack box offset) e) refl
check_start-hard_min box offset slack v r l e =
    start_hard_min-slack box offset v
      (>>-eq-ok (start_outer_slack box offset) (start_inner_slack box offset) (
        checked_other (not box.is_overlay)
          (start_outer_slack box offset >> start_inner_slack box offset) e)).1
      refl
check_start-hard_min box offset parent v r l e =
    start_hard_min-parent box offset v
      (checked_other (not box.is_overlay) (start_inner_parent box offset) e) refl
check_start-hard_min box offset used v r l e =
    start_hard_min-used box offset v
      (>>-eq-ok (start_outer_used box offset) (start_inner_used box offset) (
        checked_other (not box.is_overlay)
          (start_outer_used box offset >> start_inner_used box offset) e)).1
      refl

check_end-hard_min :
    (box : Box) (offset : ℤ) (level : Level)
    → IsEndOrdered box
    → box.is_ralign ≡ false
    → is_limited box level ≡ true
    → box_check_end_offset box offset level ≡ ok tt
    → (box.start_offset_span +ℤ box.filter_min_span_size) ≤ℤ offset
unfolding box_check_end_offset
check_end-hard_min box offset hard_min v r l e = cc
check_end-hard_min box offset min_span v r l e =
    end_hard_min-min_span box offset v
      (>>-eq-ok (end_outer_min_span box offset) (end_inner_min_span box offset) (
        checked_other (not box.is_overlay)
          (end_outer_min_span box offset >> end_inner_min_span box offset) e)).1
      refl
check_end-hard_min box offset span v r l e =
    end_hard_min-span box offset v
      (>>-eq-ok (end_outer_span box offset) (end_inner_span box offset) (
        checked_other (not box.is_overlay) (end_outer_span box offset >> end_inner_span box offset)
          e)).1
      refl
check_end-hard_min box offset max_span v r l e =
    end_hard_min-slack box offset v
      (checked_other (not box.is_overlay) (end_inner_slack box offset) e) refl
check_end-hard_min box offset slack v r l e =
    end_hard_min-slack box offset v
      (>>-eq-ok (end_outer_slack box offset) (end_inner_slack box offset) (
        checked_other (not box.is_overlay)
          (end_outer_slack box offset >> end_inner_slack box offset) e)).1
      refl
check_end-hard_min box offset parent v r l e =
    end_hard_min-parent box offset v
      (checked_other (not box.is_overlay) (end_inner_parent box offset) e) refl
check_end-hard_min box offset used v r l e =
    end_hard_min-used box offset v
      (>>-eq-ok (end_outer_used box offset) (end_inner_used box offset) (
        checked_overlay box.is_overlay (end_outer_used box offset >> end_inner_used box offset)
          (or-false r l) e)).1
      refl

pub box_set_size-IsPlacedAt :
    (r : Bool) (box : Box) (size : ℤ) (level : Level) {box' : Box}
    → box.is_ralign ≡ r
    → IsPlacedAt r box
    → box_set_size box size level ≡ ok box'
    → IsPlacedAt r box'
unfolding box_set_size
box_set_size-IsPlacedAt true box size level r v e =
    box_set_start_offset-IsStartOrdered box (box.end_offset_span -ℤ size) level v
      (ground (arith, e))
box_set_size-IsPlacedAt false box size level r v e =
    box_set_end_offset-IsEndOrdered box (box.start_offset_span +ℤ size) level v (ground (arith, e))

abbrev IsPlain : Checked → Type 0
IsPlain c = (c ≡ ok tt) ⊎ (c ≡ err out_of_bounds_error)

check_start-IsPlain :
    (box : Box) (offset : ℤ) (level : Level) → IsPlain (box_check_start_offset box offset level)
unfolding box_check_start_offset
check_start-IsPlain box offset hard_min = ground arith
check_start-IsPlain box offset min_span = ground arith
check_start-IsPlain box offset span = ground arith
check_start-IsPlain box offset max_span = ground arith
check_start-IsPlain box offset slack = ground arith
check_start-IsPlain box offset parent = ground arith
check_start-IsPlain box offset used = ground arith

check_end-IsPlain :
    (box : Box) (offset : ℤ) (level : Level) → IsPlain (box_check_end_offset box offset level)
unfolding box_check_end_offset
check_end-IsPlain box offset hard_min = ground arith
check_end-IsPlain box offset min_span = ground arith
check_end-IsPlain box offset span = ground arith
check_end-IsPlain box offset max_span = ground arith
check_end-IsPlain box offset slack = ground arith
check_end-IsPlain box offset parent = ground arith
check_end-IsPlain box offset used = ground arith

set_size_small-at :
    (r : Bool) (box : Box) (size : ℤ) (level : Level)
    → box.is_ralign ≡ r
    → IsPlacedAt r box
    → is_limited box level ≡ true
    → size <ℤ box.filter_min_span_size
    → box_set_size box size level ≡ err out_of_bounds_error
unfolding box_set_size
set_size_small-at true box size level r v l small =
    let x : ℤ = box.end_offset_span -ℤ size in
    elim (check_start-IsPlain box x level) [
      | inl e ↦
          let inside = check_start-hard_min box x level v r l e in
          let absurdity : ⊥ = omega int_laws in elim absurdity [ ]
      | inr e ↦ ground (arith, e)
    ]
set_size_small-at false box size level r v l small =
    let x : ℤ = box.start_offset_span +ℤ size in
    elim (check_end-IsPlain box x level) [
      | inl e ↦
          let inside = check_end-hard_min box x level v r l e in
          let absurdity : ⊥ = omega int_laws in elim absurdity [ ]
      | inr e ↦ ground (arith, e)
    ]

-- In a box whose limits are in order, a size below the one that its filter takes at least is
-- refused with BITPUNCH_OUT_OF_BOUNDS_ERROR, at every limit but the hard minimum itself and, in
-- a box that is neither right-aligned nor an overlay, the used size.
pub box_set_size-small :
    (box : Box) (size : ℤ) (level : Level)
    → IsPlaced box
    → is_limited box level ≡ true
    → size <ℤ box.filter_min_span_size
    → box_set_size box size level ≡ err out_of_bounds_error
box_set_size-small box size level v l small =
    set_size_small-at box.is_ralign box size level refl v l small
