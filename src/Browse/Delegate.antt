-- ===== src/Browse/Delegate.antt =====
-- libbitpunch/src/filters/item.c: the backends that compute a size from another one, from the filter
-- or from the attributes @span, @minspan and @maxspan.
pub mod Span
use bitpunch.Base.{Bool, true, false, ◌&&◌, if◌then◌else◌}
use bitpunch.Base.Int.{ℤ, pos, ltb_ℤ, ◌-ℤ◌}
use bitpunch.Status.{Status, Result, ok, err, no_item, data_error}
use bitpunch.Browse.Box.{Box, Level, min_span, span, max_span, used, unset}
use bitpunch.Browse.Box.Place.{
  box_set_size, box_set_min_span_size, box_set_span_size, box_set_max_span_size, box_set_used_size,
  min_ℤ,
}
use bitpunch.Browse.Sizes.{
  State, Op, Backends, andthen, ◌>>=◌, ◌>>◌, pure, on_box, is_set, box_compute_used_size,
  box_compute_max_span_size, box_compute_span_size, box_compute_slack_size,
}

-- The names of attributes.
pub data SpanAttribute : Type 0 where
  attr_span attr_minspan attr_maxspan : SpanAttribute

-- What the filter of the box brings: the integer value of an attribute, BITPUNCH_NO_ITEM if none is
-- enabled, and the callbacks that find the size of an item between two offsets and in a buffer.
pub record ItemCallbacks : Type 0 where
  pub evaluate_attribute : SpanAttribute → Op ℤ
  pub compute_item_size : ℤ → ℤ → Op ℤ
  pub compute_item_size_from_buffer : ℤ → ℤ → Op ℤ

-- box_set_size() with the distance of two offsets.
abbrev pub set_from : (Box → ℤ) → (Box → ℤ) → Level → Op (Unit {0})
set_from start end level = on_box (λ box. box_set_size box (end box -ℤ start box) level)

-- `u.item.min_span_size` of a filter with this backend is what ast_node_get_min_span_size() returns.
unfoldable pub box_compute_used_size__const_size : Op (Unit {0})
box_compute_used_size__const_size = on_box (λ box. box_set_used_size box box.filter_min_span_size)

unfoldable pub box_compute_min_span_size__as_hard_min : Op (Unit {0})
box_compute_min_span_size__as_hard_min =
    on_box (λ box. box_set_size box box.filter_min_span_size min_span)

-- The check of the value of an attribute, and the use that is made of it.
abbrev pub with_size : ℤ → (ℤ → Op (Unit {0})) → Op (Unit {0})
with_size size set s = if ltb_ℤ size (pos 0) then (err data_error, s) else set size s

-- The switch over the outcome of an attribute.
abbrev pub if_enabled :
    Result ℤ × State → (ℤ → Op (Unit {0})) → Op (Unit {0}) → Result (Unit {0}) × State
if_enabled (ok size, s) set absent = with_size size set s
if_enabled (err no_item, s) set absent = absent s
if_enabled (err e, s) set absent = (err e, s)

-- The switch behind two attributes, the second of which defines the other limit too.
abbrev pub if_either :
    Result ℤ × State → Op ℤ → (Bool → ℤ → Op (Unit {0})) → Op (Unit {0}) → Result (Unit {0}) × State
if_either (err no_item, s) second set absent = if_enabled (second s) (set true) absent
if_either r second set absent = if_enabled r (set false) absent

module _ (c : ItemCallbacks) (h : Backends) where
  unfoldable pub box_compute_max_span_size__as_span : Op (Unit {0})
  unfolding box_compute_span_size
  box_compute_max_span_size__as_span =
      box_compute_span_size h
      >> set_from (λ b. b.start_offset_span) (λ b. b.end_offset_span) max_span

  abbrev set_if_known : Op (Unit {0})
  set_if_known s =
      if is_set s.node.box.start_offset_slack && is_set s.node.box.end_offset_slack
      then set_from (λ b. b.start_offset_slack) (λ b. b.end_offset_slack) max_span s
      else pure tt s

  unfoldable pub box_compute_max_span_size__as_slack : Op (Unit {0})
  unfolding box_compute_slack_size
  box_compute_max_span_size__as_slack = box_compute_slack_size h >> set_if_known

  unfoldable pub box_compute_span_size__as_slack : Op (Unit {0})
  unfolding box_compute_slack_size
  box_compute_span_size__as_slack =
      box_compute_slack_size h
      >> set_from (λ b. b.start_offset_slack) (λ b. b.end_offset_slack) span

  unfoldable pub box_compute_used_size__as_max_span : Op (Unit {0})
  unfolding box_compute_max_span_size
  box_compute_used_size__as_max_span =
      box_compute_max_span_size h
      >> set_from (λ b. b.start_offset_max_span) (λ b. b.end_offset_max_span) used

  -- A callback on the range of the maximum span.
  abbrev pub on_max_span : (ℤ → ℤ → Op ℤ) → Op ℤ
  on_max_span f s = f s.node.box.start_offset_max_span s.node.box.end_offset_max_span s

  abbrev pub set_span : ℤ → Op (Unit {0})
  set_span size = on_box (λ box. box_set_size box size span)

  unfoldable pub box_compute_span_size__from_compute_item_size : Op (Unit {0})
  unfolding box_compute_max_span_size
  box_compute_span_size__from_compute_item_size =
      box_compute_max_span_size h >> on_max_span c.compute_item_size >>= set_span

  unfoldable pub box_compute_span_size__from_compute_item_size_from_buffer : Op (Unit {0})
  unfolding box_compute_max_span_size
  box_compute_span_size__from_compute_item_size_from_buffer =
      box_compute_max_span_size h
      >> on_max_span (λ start end. c.compute_item_size_from_buffer start (end -ℤ start))
      >>= set_span

  unfoldable pub box_compute_span_size__as_used : Op (Unit {0})
  unfolding box_compute_used_size
  box_compute_span_size__as_used =
      box_compute_used_size h >> set_from (λ b. b.start_offset_used) (λ b. b.end_offset_used) span

  unfoldable pub box_compute_used_size__as_span : Op (Unit {0})
  unfolding box_compute_span_size
  box_compute_used_size__as_span =
      box_compute_span_size h >> set_from (λ b. b.start_offset_span) (λ b. b.end_offset_span) used

  abbrev pub set_span_size : ℤ → Op (Unit {0})
  set_span_size size = on_box (λ box. box_set_span_size box size)

  unfoldable pub box_compute_span_size__span_expr : Op (Unit {0})
  unfolding box_compute_span_size__as_used
  box_compute_span_size__span_expr s =
      if_enabled (c.evaluate_attribute attr_span s) set_span_size box_compute_span_size__as_used

  -- @span sets both the minimum and the maximum.
  abbrev pub set_minimum : Bool → ℤ → Op (Unit {0})
  set_minimum span_expr_defines_max size =
      on_box (λ box. box_set_min_span_size box size)
      >> (if span_expr_defines_max then on_box (λ box. box_set_max_span_size box size) else pure tt)

  unfoldable pub box_compute_min_span_size__span_expr : Op (Unit {0})
  unfolding box_compute_min_span_size__as_hard_min
  box_compute_min_span_size__span_expr s =
      if_either (c.evaluate_attribute attr_minspan s) (c.evaluate_attribute attr_span) set_minimum
        box_compute_min_span_size__as_hard_min

  abbrev pub set_maximum : Bool → ℤ → Op (Unit {0})
  set_maximum span_expr_defines_min size =
      box_compute_slack_size h
      >> on_box (λ box.
        box_set_max_span_size box (min_ℤ size (box.end_offset_slack -ℤ box.start_offset_slack)))
      >> (if span_expr_defines_min then on_box (λ box. box_set_min_span_size box size) else pure tt)

  unfoldable pub box_compute_max_span_size__span_expr : Op (Unit {0})
  unfolding box_compute_max_span_size__as_slack box_compute_slack_size
  box_compute_max_span_size__span_expr s =
      if_either (c.evaluate_attribute attr_maxspan s) (c.evaluate_attribute attr_span) set_maximum
        box_compute_max_span_size__as_slack
