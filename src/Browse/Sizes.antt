-- ===== src/Browse/Sizes.antt =====
-- libbitpunch/src/core/browse.c: the sizes of a box, computed on demand by the backends of its
-- filter.
pub mod Frame
pub mod Allocation
pub mod Offsets
use bitpunch.Base.{ℕ, Bool, true, false, not, ◌&&◌, ◌||◌, if◌then◌else◌, List, [], ◌∷◌}
use bitpunch.Base.Int.{ℤ, eqb_ℤ, ◌-ℤ◌}
use bitpunch.Status.{Status, Result, ok, err, error, invalid_param}
use bitpunch.Browse.Box.{
  Box, Level, hard_min, min_span, span, max_span, slack, parent, used, OffsetType, start_offset,
  end_offset, unset, box_get_offset, box_get_known_start_offset, box_get_known_end_offset,
}
use bitpunch.Browse.Box.Place.{box_set_start_offset, box_set_end_offset, box_set_span_size}

-- A box with its address, its flags, and whether its filter has a backend
-- get_slack_child_allocation.
pub record BoxNode : Type 0 where
  pub box : Box
  pub address : ℕ
  pub is_filter : Bool
  pub computing_span_size : Bool
  pub computing_slack_child_allocation : Bool
  pub has_slack_backend : Bool

-- A box, its ancestors from its parent on, and `bst->scope`, the address of a box.
pub record State : Type 0 where
  pub node : BoxNode
  pub parents : List BoxNode
  pub scope : ℕ

abbrev pub Op : Type 0 → Type 0
Op A = State → Result A × State

abbrev pub andthen : {A B : Type 0} → Result A × State → (A → Op B) → Result B × State
andthen (ok a, s) k = k a s
andthen (err e, s) k = (err e, s)

infixl 5 ◌>>=◌ ◌>>◌
abbrev pub ◌>>=◌ : {A B : Type 0} → Op A → (A → Op B) → Op B
◌>>=◌ m k s = andthen (m s) k

abbrev pub ◌>>◌ : {B : Type 0} → Op (Unit {0}) → Op B → Op B
m >> k = m >>= λ _. k

abbrev pub pure : {A : Type 0} → A → Op A
pure a s = (ok a, s)

-- The backends of the filters, and box_apply_parent_filter_internal, which runs the filters of the
-- parents.
pub record Backends : Type 0 where
  pub apply_parent_filter : Op (Unit {0})
  pub compute_min_span_size : Op (Unit {0})
  pub compute_span_size : Op (Unit {0})
  pub compute_max_span_size : Op (Unit {0})
  pub compute_used_size : Op (Unit {0})
  pub get_slack_child_allocation : Bool → Op ℤ
  pub get_n_items : Op ℤ

abbrev pub with_node : (BoxNode → BoxNode) → State → State
with_node f s = record s { node = f s.node }

abbrev pub finally : {A : Type 0} → Op A → (State → State) → Op A
finally op cleanup s = let (r, s') = op s in (r, cleanup s')

-- browse_state_push_scope, the call and browse_state_pop_scope.
unfoldable pub in_scope : {A : Type 0} → Op A → Op A
in_scope op s =
    finally op (λ s'. record s' { scope = s.scope }) (record s { scope = s.node.address })

abbrev put_box : Result Box → Op (Unit {0})
put_box (ok box) s = (ok tt, with_node (λ n. record n { box = box }) s)
put_box (err e) s = (err e, s)

abbrev pub on_box : (Box → Result Box) → Op (Unit {0})
on_box f s = put_box (f s.node.box) s

abbrev pub is_set : ℤ → Bool
is_set offset = not (eqb_ℤ offset unset)

-- A call on the parent of the box, at `p` with the ancestors `ps`.
abbrev pub on_parent : {A : Type 0} → BoxNode → List BoxNode → Op A → Op A
on_parent p ps op s =
    let (r, s') = op (record { node = p; parents = ps; scope = s.scope }) in
    (r, record { node = s.node; parents = s'.node ∷ s'.parents; scope = s'.scope })

abbrev pub set_computing : Bool → State → State
set_computing b = with_node (λ n. record n { computing_span_size = b })

abbrev pub set_allocating : Bool → State → State
set_allocating b = with_node (λ n. record n { computing_slack_child_allocation = b })

module _ (h : Backends) where
  unfoldable pub box_compute_min_span_size : Op (Unit {0})
  unfolding in_scope
  box_compute_min_span_size s =
      if is_set s.node.box.start_offset_min_span && is_set s.node.box.end_offset_min_span
      then pure tt s
      else (h.apply_parent_filter >> in_scope h.compute_min_span_size) s

  unfoldable pub box_compute_used_size : Op (Unit {0})
  unfolding in_scope
  box_compute_used_size s =
      if is_set s.node.box.start_offset_used && is_set s.node.box.end_offset_used
      then pure tt s
      else (h.apply_parent_filter >> in_scope h.compute_used_size) s

  -- The part of box_compute_max_span_size behind the filters of the parents.
  unfoldable pub compute_max_span : Op (Unit {0})
  unfolding in_scope
  compute_max_span s =
      if is_set s.node.box.start_offset_max_span && is_set s.node.box.end_offset_max_span
        || s.node.computing_span_size
      then pure tt s
      else finally (in_scope h.compute_max_span_size) (set_computing false) (set_computing true s)

  unfoldable pub box_compute_max_span_size : Op (Unit {0})
  unfolding compute_max_span
  box_compute_max_span_size = h.apply_parent_filter >> compute_max_span

  abbrev pub is_tight : Box → Bool
  is_tight box =
      not box.is_ralign && eqb_ℤ box.end_offset_min_span box.end_offset_max_span
      || (box.is_ralign && eqb_ℤ box.start_offset_min_span box.start_offset_max_span)

  -- The part of box_compute_span_size behind the minimum and the maximum.
  unfoldable pub choose_span : Op (Unit {0})
  unfolding in_scope
  choose_span s =
      let box = s.node.box in
      if not s.node.computing_span_size && is_tight box
      then on_box
          (λ box'. box_set_span_size box' (box.end_offset_max_span -ℤ box.start_offset_max_span)) s
      else in_scope h.compute_span_size s

  abbrev pub maximum_first : Op (Unit {0})
  maximum_first s = if s.node.computing_span_size then pure tt s else box_compute_max_span_size s

  unfoldable pub box_compute_span_size : Op (Unit {0})
  unfolding box_compute_min_span_size box_compute_max_span_size choose_span
  box_compute_span_size s =
      if is_set s.node.box.start_offset_span && is_set s.node.box.end_offset_span
      then pure tt s
      else (box_compute_min_span_size >> maximum_first >> choose_span) s

  -- box_get_min_span_size and its likes.
  abbrev pub size_of : (Box → ℤ) → (Box → ℤ) → Op ℤ
  size_of start end s = pure (end s.node.box -ℤ start s.node.box) s

  unfoldable pub box_get_min_span_size : Op ℤ
  unfolding box_compute_min_span_size
  box_get_min_span_size =
      box_compute_min_span_size
      >> size_of (λ b. b.start_offset_min_span) (λ b. b.end_offset_min_span)

  unfoldable pub box_get_used_size : Op ℤ
  unfolding box_compute_used_size
  box_get_used_size =
      box_compute_used_size >> size_of (λ b. b.start_offset_used) (λ b. b.end_offset_used)

  unfoldable pub box_get_span_size : Op ℤ
  unfolding box_compute_span_size
  box_get_span_size =
      box_compute_span_size >> size_of (λ b. b.start_offset_span) (λ b. b.end_offset_span)

  unfoldable pub box_get_max_span_size : Op ℤ
  unfolding box_compute_max_span_size
  box_get_max_span_size =
      box_compute_max_span_size
      >> size_of (λ b. b.start_offset_max_span) (λ b. b.end_offset_max_span)

  unfoldable pub box_get_n_items_internal : Op ℤ
  unfolding in_scope
  box_get_n_items_internal = h.apply_parent_filter >> in_scope h.get_n_items

  -- The part of box_get_slack_child_allocation behind the filters of the parents.
  unfoldable pub child_allocation : Bool → Bool → Op ℤ
  unfolding in_scope
  child_allocation flag_set get_left_offset s =
      finally
        (if s.node.has_slack_backend
          then in_scope (h.get_slack_child_allocation get_left_offset)
          else pure (
              if get_left_offset
              then box_get_known_start_offset s.node.box
              else box_get_known_end_offset s.node.box))
        (λ s'. if flag_set then set_allocating false s' else s') s

  unfoldable pub box_get_slack_child_allocation : Bool → Op ℤ
  unfolding child_allocation
  box_get_slack_child_allocation get_left_offset s =
      let flag_set = not s.node.computing_slack_child_allocation in
      (h.apply_parent_filter >> child_allocation flag_set get_left_offset)
        (if flag_set then set_allocating true s else s)

  -- box_compute_slack_size_internal, with the parent at `p`.
  unfoldable pub slack_from_parent : BoxNode → List BoxNode → Op (Unit {0})
  unfolding box_compute_used_size box_compute_max_span_size box_get_slack_child_allocation
  slack_from_parent p ps s =
      let ralign = s.node.box.is_ralign in
      let sized : Op (Unit {0}) =
        if s.node.is_filter then box_compute_used_size else box_compute_max_span_size in
      (on_parent p ps (sized >> box_get_slack_child_allocation ralign) >>= λ offset. on_box (λ box.
          if ralign
          then box_set_start_offset box offset slack
          else box_set_end_offset box offset slack))
        s

  abbrev slack_internal : Op (Unit {0})
  slack_internal s = elim s.parents [ [] ↦ (err error, s) | p ∷ ps ↦ slack_from_parent p ps s ]

  unfoldable pub box_compute_slack_size : Op (Unit {0})
  unfolding slack_from_parent in_scope
  box_compute_slack_size s = elim s.parents [
    | [] ↦ pure tt s
    | p ∷ ps ↦
        if is_set s.node.box.start_offset_slack && is_set s.node.box.end_offset_slack
        then pure tt s
        else (h.apply_parent_filter >> in_scope slack_internal) s
  ]
