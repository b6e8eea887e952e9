-- ===== src/Browse/Delegate/Span.antt =====
-- The span that the attribute @span gives a box.
use mathlib.Core.Path.{subst}
use bitpunch.Base.{Bool, true, false, ◌≡◌, ◌∙◌, refl, sym, ap, arith}
use bitpunch.Base.Int.{ℤ, pos, ltb_ℤ, ◌≤ℤ◌, ◌+ℤ◌, ◌-ℤ◌, int_laws, eq_of_parts}
use bitpunch.Status.{Result, ok, err, no_item}
use bitpunch.Browse.Box.{Box, span}
use bitpunch.Browse.Box.Check.{box_check_start_offset, box_check_end_offset}
use bitpunch.Browse.Box.Place.{
  box_set_size, box_set_start_offset, box_set_end_offset, with_start, with_end,
}
use bitpunch.Browse.Box.Order.{>>-eq-ok}
use bitpunch.Browse.Sizes.{State, Backends, andthen, on_box, box_compute_used_size}
use bitpunch.Browse.Delegate.{
  ItemCallbacks, attr_span, with_size, if_enabled, set_from, set_span_size,
  box_compute_span_size__as_used, box_compute_span_size__span_expr,
}

abbrev pub span_size : Box → ℤ
span_size box = box.end_offset_span -ℤ box.start_offset_span

abbrev pub used_size : Box → ℤ
used_size box = box.end_offset_used -ℤ box.start_offset_used

-- The span is set to the size, and the used size is left.
set_span-at :
    (r : Bool) (box : Box) (size : ℤ) (box' : Box)
    → box.is_ralign ≡ r
    → box_set_size box size span ≡ ok box'
    → (span_size box' ≡ size) × (used_size box' ≡ used_size box)
unfolding box_set_size box_set_start_offset box_set_end_offset with_start with_end
set_span-at true box size box' r e =
    let x : ℤ = box.end_offset_span -ℤ size in
    let set : box_set_start_offset box x span ≡ ok box' = ground (arith, e) in
    let (checked, placed) =
      >>-eq-ok (box_check_start_offset box x span) (ok (with_start box x span)) set in
    let same : with_start box x span ≡ box' = cc in
    subst (λ (b : Box). (span_size b ≡ size) × (used_size b ≡ used_size box)) same
      (eq_of_parts (box.end_offset_span -ℤ x) size (omega int_laws), refl)
set_span-at false box size box' r e =
    let x : ℤ = box.start_offset_span +ℤ size in
    let set : box_set_end_offset box x span ≡ ok box' = ground (arith, e) in
    let (checked, placed) =
      >>-eq-ok (box_check_end_offset box x span) (ok (with_end box x span)) set in
    let same : with_end box x span ≡ box' = cc in
    subst (λ (b : Box). (span_size b ≡ size) × (used_size b ≡ used_size box)) same
      (eq_of_parts (x -ℤ box.start_offset_span) size (omega int_laws), refl)

put-ok : (r : Result Box) (s s' : State) → on_box (λ _. r) s ≡ (ok tt, s') → r ≡ ok s'.node.box
put-ok (ok box) s s' e = ap ok (ap (λ (p : Result (Unit {0}) × State). p.1.node.box) e)
put-ok (err status) s s' e = cc

-- A setter of the span, by a size that is found on the box.
set_span-ok :
    (size : Box → ℤ) (s s' : State)
    → on_box (λ box. box_set_size box (size box) span) s ≡ (ok tt, s')
    → (span_size s'.node.box ≡ size s.node.box) × (used_size s'.node.box ≡ used_size s.node.box)
set_span-ok size s s' e =
    set_span-at s.node.box.is_ralign s.node.box (size s.node.box) s'.node.box refl
      (put-ok (box_set_size s.node.box (size s.node.box) span) s s' e)

after_used :
    (r : Result (Unit {0}) × State) (s' : State)
    → andthen r (λ _. set_from (λ b. b.start_offset_used) (λ b. b.end_offset_used) span)
      ≡ (ok tt, s')
    → span_size s'.node.box ≡ used_size s'.node.box
after_used (ok tt, s) s' e = let (set, kept) = set_span-ok used_size s s' e in set ∙ sym kept
after_used (err status, s) s' e = cc

-- A span that is the used size.
as_used-ok :
    (c : ItemCallbacks) (h : Backends) (s s' : State)
    → box_compute_span_size__as_used c h s ≡ (ok tt, s')
    → span_size s'.node.box ≡ used_size s'.node.box
unfolding box_compute_span_size__as_used
as_used-ok c h s s' e = after_used (box_compute_used_size h s) s' e

with_size-ok :
    (c : ItemCallbacks) (h : Backends) (size : ℤ) (b : Bool) (s s' : State)
    → ltb_ℤ size (pos 0) ≡ b
    → with_size size (set_span_size c h) s ≡ (ok tt, s')
    → (pos 0 ≤ℤ size) × (span_size s'.node.box ≡ size)
with_size-ok c h size true s s' test e = ground arith
with_size-ok c h size false s s' test e =
    let set : set_span_size c h size s ≡ (ok tt, s') = ground (arith, e) in
    (ground arith, (set_span-ok (λ _. size) s s' set).0)

-- What the evaluation of @span tells about the span.
abbrev pub IsSpanOf : Result ℤ → Box → Type 0
IsSpanOf (ok size) box = (pos 0 ≤ℤ size) × (span_size box ≡ size)
IsSpanOf (err no_item) box = span_size box ≡ used_size box
IsSpanOf (err status) box = ⊥

if_enabled-ok :
    (c : ItemCallbacks) (h : Backends) (r : Result ℤ × State) (s' : State)
    → if_enabled r (set_span_size c h) (box_compute_span_size__as_used c h) ≡ (ok tt, s')
    → IsSpanOf r.0 s'.node.box
if_enabled-ok c h (ok size, s) s' e = with_size-ok c h size (ltb_ℤ size (pos 0)) s s' refl e
if_enabled-ok c h (err no_item, s) s' e = as_used-ok c h s s' e
if_enabled-ok c h (err status, s) s' e = cc

-- When the backend of a filter with the attribute @span succeeds, the attribute was either
-- evaluated to a number that is not negative, which is the span that the box has then, or is not
-- enabled, and the span is the box's used size; any other status of the evaluation and a negative
-- number make it fail.
pub box_compute_span_size__span_expr_sizes :
    (c : ItemCallbacks) (h : Backends) (s s' : State)
    → box_compute_span_size__span_expr c h s ≡ (ok tt, s')
    → IsSpanOf (c.evaluate_attribute attr_span s).0 s'.node.box
unfolding box_compute_span_size__span_expr
box_compute_span_size__span_expr_sizes c h s s' e =
    if_enabled-ok c h (c.evaluate_attribute attr_span s) s' e
