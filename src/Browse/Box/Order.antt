-- ===== src/Browse/Box/Order.antt =====
-- The order in which the limits of a box lie, and the setters that keep it.
pub mod Start
pub mod End
pub mod SetStart
pub mod SetEnd
use bitpunch.Base.{Bool, true, false, ◌&&◌, not, if◌then◌else◌, ◌≡◌, refl, arith}
use bitpunch.Base.Int.{ℤ, ◌≤ℤ◌, ◌+ℤ◌, ◌-ℤ◌}
use bitpunch.Status.{Result, ok, err, ◌>>◌}
use bitpunch.Browse.Box.{Box, is_known}
use bitpunch.Browse.Box.Check.{Checked, not_below, not_above, has_used_start, has_used_end}

-- When the condition holds, the first offset is not after the second one.
abbrev pub IsOrdered : Bool → ℤ → ℤ → Type 0
IsOrdered condition a b = condition ≡ true → a ≤ℤ b

pub IsOrdered-and_right : (k k' : Bool) (a b : ℤ) → IsOrdered k' a b → IsOrdered (k && k') a b
IsOrdered-and_right true k' a b f = f
IsOrdered-and_right false k' a b f = λ h. cc

pub IsOrdered-and_left : (k k' : Bool) (a b : ℤ) → IsOrdered k a b → IsOrdered (k && k') a b
IsOrdered-and_left true k' a b f = λ h. f refl
IsOrdered-and_left false k' a b f = λ h. cc

-- A test that passes keeps the offset on its side of the limit, ...
pub not_below-limit :
    (k : Bool) (limit offset : ℤ) (next : Checked)
    → not_below k limit offset next ≡ ok tt
    → IsOrdered k limit offset
not_below-limit true limit offset next e = λ h. ground arith
not_below-limit false limit offset next e = λ h. cc

pub not_above-limit :
    (k : Bool) (limit offset : ℤ) (next : Checked)
    → not_above k limit offset next ≡ ok tt
    → IsOrdered k offset limit
not_above-limit true limit offset next e = λ h. ground arith
not_above-limit false limit offset next e = λ h. cc

-- ... and of what lies beyond the limit, if the tests that follow do so.
pub not_below-step :
    (k k' : Bool) (limit offset bound : ℤ) (next : Checked)
    → not_below k limit offset next ≡ ok tt
    → IsOrdered (k' && k) bound limit
    → (next ≡ ok tt → IsOrdered k' bound offset)
    → IsOrdered k' bound offset
not_below-step true true limit offset bound next e f g = λ h. let p = f refl in ground arith
not_below-step true false limit offset bound next e f g = λ h. cc
not_below-step false k' limit offset bound next e f g = g e

pub not_above-step :
    (k k' : Bool) (limit offset bound : ℤ) (next : Checked)
    → not_above k limit offset next ≡ ok tt
    → IsOrdered (k' && k) limit bound
    → (next ≡ ok tt → IsOrdered k' offset bound)
    → IsOrdered k' offset bound
not_above-step true true limit offset bound next e f g = λ h. let p = f refl in ground arith
not_above-step true false limit offset bound next e f g = λ h. cc
not_above-step false k' limit offset bound next e f g = g e

pub >>-eq-ok {ℓ} :
    {B : Type ℓ} (a : Checked) (b : Result B) {c : B} → (a >> b) ≡ ok c → (a ≡ ok tt) × (b ≡ ok c)
>>-eq-ok (ok tt) b e = (refl, e)
>>-eq-ok (err s) b e = cc

pub ok-injective : {A : Type 0} {a b : A} → ok a ≡ ok b → a ≡ b
ok-injective e = cc

-- The test for the used offset is passed over at another limit.
pub checked_other : (o : Bool) (c : Checked) → (if o && false then ok tt else c) ≡ ok tt → c ≡ ok tt
checked_other true c e = e
checked_other false c e = e

pub checked_overlay :
    (o : Bool) (c : Checked) → o ≡ true → (if not o && true then ok tt else c) ≡ ok tt → c ≡ ok tt
checked_overlay true c h e = e
checked_overlay false c h e = cc

pub IsOrdered-no_overlay : (k o k' : Bool) (a b : ℤ) → o ≡ false → IsOrdered (k && (o && k')) a b
IsOrdered-no_overlay true true k' a b h = λ _. cc
IsOrdered-no_overlay true false k' a b h = λ e. cc
IsOrdered-no_overlay false o k' a b h = λ e. cc

-- The end limits that are known lie in order, the hard minimum innermost.
pub record IsEndOrdered (box : Box) : Type 0 where
  pub span_max_span :
      IsOrdered
        (is_known box.end_offset_span && is_known box.end_offset_max_span)
        (box.end_offset_span)
        (box.end_offset_max_span)
  pub used_span :
      IsOrdered
        (is_known box.end_offset_span && has_used_end box)
        (box.end_offset_used)
        (box.end_offset_span)
  pub min_span_used :
      IsOrdered
        (is_known box.end_offset_min_span && has_used_end box)
        (box.end_offset_min_span)
        (box.end_offset_used)
  pub min_span_span :
      IsOrdered
        (is_known box.end_offset_min_span && is_known box.end_offset_span)
        (box.end_offset_min_span)
        (box.end_offset_span)
  pub hard_min_min_span :
      IsOrdered
        (is_known box.end_offset_min_span)
        (box.start_offset_span +ℤ box.filter_min_span_size)
        (box.end_offset_min_span)
  pub hard_min_used :
      IsOrdered
        (has_used_end box)
        (box.start_offset_span +ℤ box.filter_min_span_size)
        (box.end_offset_used)
  pub hard_min_span :
      IsOrdered
        (is_known box.end_offset_span)
        (box.start_offset_span +ℤ box.filter_min_span_size)
        (box.end_offset_span)
  pub hard_min_max_span :
      IsOrdered
        (is_known box.end_offset_max_span)
        (box.start_offset_span +ℤ box.filter_min_span_size)
        (box.end_offset_max_span)
  pub hard_min_slack :
      IsOrdered
        (is_known box.end_offset_slack)
        (box.start_offset_span +ℤ box.filter_min_span_size)
        (box.end_offset_slack)

-- The start limits that are known lie in order, the hard minimum innermost.
pub record IsStartOrdered (box : Box) : Type 0 where
  pub span_max_span :
      IsOrdered
        (is_known box.start_offset_span && is_known box.start_offset_max_span)
        (box.start_offset_max_span)
        (box.start_offset_span)
  pub used_span :
      IsOrdered
        (is_known box.start_offset_span && has_used_start box)
        (box.start_offset_span)
        (box.start_offset_used)
  pub min_span_used :
      IsOrdered
        (is_known box.start_offset_min_span && has_used_start box)
        (box.start_offset_used)
        (box.start_offset_min_span)
  pub min_span_span :
      IsOrdered
        (is_known box.start_offset_min_span && is_known box.start_offset_span)
        (box.start_offset_span)
        (box.start_offset_min_span)
  pub hard_min_min_span :
      IsOrdered
        (is_known box.start_offset_min_span)
        (box.start_offset_min_span)
        (box.end_offset_span -ℤ box.filter_min_span_size)
  pub hard_min_used :
      IsOrdered
        (has_used_start box)
        (box.start_offset_used)
        (box.end_offset_span -ℤ box.filter_min_span_size)
  pub hard_min_span :
      IsOrdered
        (is_known box.start_offset_span)
        (box.start_offset_span)
        (box.end_offset_span -ℤ box.filter_min_span_size)
  pub hard_min_max_span :
      IsOrdered
        (is_known box.start_offset_max_span)
        (box.start_offset_max_span)
        (box.end_offset_span -ℤ box.filter_min_span_size)
  pub hard_min_slack :
      IsOrdered
        (is_known box.start_offset_slack)
        (box.start_offset_slack)
        (box.end_offset_span -ℤ box.filter_min_span_size)
