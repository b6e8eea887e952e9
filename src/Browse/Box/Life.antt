-- ===== src/Browse/Box/Life.antt =====
-- The life of a box: it is constructed, takes its limits from its parent, and is given sizes.
use bitpunch.Base.{ℕ, Bool, true, false, ◌≡◌, refl, sym, ap, ◌∙◌, arith, Option}
use bitpunch.Base.Int.{ℤ, eqb_ℤ, ◌+ℤ◌, ◌-ℤ◌}
use mathlib.Core.Path.{subst}
use bitpunch.Status.{ok}
use bitpunch.Browse.Box.{Box, Level, unset, is_known}
use bitpunch.Browse.Box.Place.{
  with_start, with_end, box_set_size, box_set_boundary_offset, box_inherit_boundary_offset,
  box_setup_input_boundaries, box_setup_overlay, box_construct, PathFlags,
}
use bitpunch.Browse.Box.Placed.{IsPlaced, IsPlacedAt, box_set_size-IsPlacedAt}

-- The offset that the box inherits at its fixed end.
abbrev pub fixed_at : Bool → Box → ℤ
fixed_at true box = box.end_offset_parent
fixed_at false box = box.start_offset_parent

abbrev pub IsFixedAt : Bool → Box → Type 0
IsFixedAt r box = eqb_ℤ (fixed_at r box) unset ≡ false

-- A box with a known boundary on its way: constructed with it, or without one and set up from
-- its parent as box_apply_local_filter does; then any number of times renewed by its parent's
-- limits, or given a size.
pub data Placing : Box → Type 0 where
  constructed :
      (parent_level : Option ℕ) (size boundary : ℤ) (ralign overlay : Bool) (box : Box) (n : ℕ)
      → box_construct parent_level size ralign overlay boundary ≡ ok (box, n)
      → eqb_ℤ boundary unset ≡ false
      → Placing box
  set_up :
      (parent_level : Option ℕ) (size : ℤ) (ralign overlay : Bool) (flags : PathFlags)
      (box parent_box box' : Box) (n : ℕ)
      → box_construct parent_level size ralign overlay unset ≡ ok (box, n)
      → box' ≡ box_setup_overlay (box_setup_input_boundaries box flags parent_box)
      → IsFixedAt box'.is_ralign box'
      → Placing box'
  inherited :
      (box parent_box box' : Box)
      → Placing box
      → box' ≡ box_inherit_boundary_offset box parent_box
      → Placing box'
  sized :
      (box box' : Box) (size : ℤ) (level : Level)
      → Placing box
      → box_set_size box size level ≡ ok box'
      → Placing box'

abbrev IsSettled : Box → Type 0
IsSettled box = IsPlaced box × IsFixedAt box.is_ralign box

constructed-IsSettled :
    (parent_level : Option ℕ) (size boundary : ℤ) (ralign overlay : Bool) (box : Box) (n : ℕ)
    → box_construct parent_level size ralign overlay boundary ≡ ok (box, n)
    → eqb_ℤ boundary unset ≡ false
    → IsSettled box
unfolding box_construct box_set_boundary_offset is_known
constructed-IsSettled parent_level size boundary true overlay box n e b = ground arith
constructed-IsSettled parent_level size boundary false overlay box n e b = ground arith

set_up-IsSettled :
    (parent_level : Option ℕ) (size : ℤ) (ralign overlay : Bool) (flags : PathFlags)
    (box parent_box : Box) (n : ℕ)
    → box_construct parent_level size ralign overlay unset ≡ ok (box, n)
    → let box' = box_setup_overlay (box_setup_input_boundaries box flags parent_box) in
      IsFixedAt box'.is_ralign box' → IsSettled box'
unfolding box_construct box_setup_overlay box_setup_input_boundaries box_set_boundary_offset
    is_known
set_up-IsSettled parent_level size true overlay flags box parent_box n e b = ground arith
set_up-IsSettled parent_level size false overlay flags box parent_box n e b = ground arith

inherited-at :
    (r : Bool) (box parent_box : Box)
    → box.is_ralign ≡ r
    → IsPlacedAt r box
    → IsFixedAt r box
    → let box' = box_inherit_boundary_offset box parent_box in
      IsPlacedAt r box' × IsFixedAt r box' × (box'.is_ralign ≡ r)
unfolding box_inherit_boundary_offset box_set_boundary_offset
inherited-at true box parent_box r v b = ground arith
inherited-at false box parent_box r v b = ground arith

-- A setter leaves the other end and the alignment as they are.
with_start-fixed :
    (box : Box) (offset : ℤ) (level : Level)
    → ((with_start box offset level).end_offset_parent ≡ box.end_offset_parent)
      × ((with_start box offset level).is_ralign ≡ box.is_ralign)
unfolding with_start
with_start-fixed box offset level = ground arith

with_end-fixed :
    (box : Box) (offset : ℤ) (level : Level)
    → ((with_end box offset level).start_offset_parent ≡ box.start_offset_parent)
      × ((with_end box offset level).is_ralign ≡ box.is_ralign)
unfolding with_end
with_end-fixed box offset level = ground arith

sized-fixed :
    (r : Bool) (box box' : Box) (size : ℤ) (level : Level)
    → box.is_ralign ≡ r
    → box_set_size box size level ≡ ok box'
    → (fixed_at r box' ≡ fixed_at r box) × (box'.is_ralign ≡ r)
unfolding box_set_size
sized-fixed true box box' size level r e =
    ground (arith, with_start-fixed box (box.end_offset_span -ℤ size) level)
sized-fixed false box box' size level r e =
    ground (arith, with_end-fixed box (box.start_offset_span +ℤ size) level)

settled :
    (r : Bool) (box : Box) → IsPlacedAt r box → IsFixedAt r box → box.is_ralign ≡ r → IsSettled box
settled r box v b e = subst (λ (r' : Bool). IsPlacedAt r' box × IsFixedAt r' box) (sym e) (v, b)

Placing-IsSettled : (box : Box) → Placing box → IsSettled box
Placing-IsSettled _ (constructed parent_level size boundary ralign overlay box n e b) =
    constructed-IsSettled parent_level size boundary ralign overlay box n e b
Placing-IsSettled _ (set_up parent_level size ralign overlay flags box parent_box box' n e same b) =
    subst IsSettled (sym same) (
      set_up-IsSettled parent_level size ralign overlay flags box parent_box n e
        (subst (λ (z : Box). IsFixedAt z.is_ralign z) same b))
Placing-IsSettled _ (inherited box parent_box box' p same) =
    let (v, b) = Placing-IsSettled box p in
    let (v', b', kept) = inherited-at box.is_ralign box parent_box refl v b in
    subst IsSettled (sym same)
      (settled box.is_ralign (box_inherit_boundary_offset box parent_box) v' b' kept)
Placing-IsSettled _ (sized box box' size level p e) =
    let (v, b) = Placing-IsSettled box p in
    let (same, kept) = sized-fixed box.is_ralign box box' size level refl e in
    settled box.is_ralign box' (box_set_size-IsPlacedAt box.is_ralign box size level refl v e)
      (ap (λ (z : ℤ). eqb_ℤ z unset) same ∙ b) kept

pub Placing-IsPlaced : (box : Box) → Placing box → IsPlaced box
Placing-IsPlaced box p = (Placing-IsSettled box p).0
