-- ===== src/Arrays/IndexCache/Placed.antt =====
-- Where the items of an array lie, and what it is for a tracker to stand at one of them.
use bitpunch.Base.{ℕ, zero, suc, Bool, true, false, ◌≡◌}
use bitpunch.Base.Int.{ℤ, pos, negsuc}
use bitpunch.Expr.Values.{Value}
use bitpunch.Arrays.Tracker.{Tracker, path_array}

-- The keys of the items, where they start, and whether their size is variable.
pub record Contents : Type 0 where
  pub key : ℕ → Value
  pub offset : ℕ → ℤ
  pub is_variable : Bool

-- The index of the item before the one at `i`.
abbrev pub before : ℕ → ℤ
before zero = negsuc 0
before (suc i) = pos i

-- A tracker stands at item i: it is not at the end, has the item's filter, goes forward and keeps
-- an offset, which is that of the item.
pub record IsAt (items : Contents) (i : ℕ) (tk : Tracker) : Type 0 where
  pub cur : tk.cur ≡ path_array (pos i)
  pub filter : tk.has_filter ≡ true
  pub not_end : tk.at_end ≡ false
  pub forward : tk.reversed ≡ false
  pub needed : tk.need_item_offset ≡ true
  pub offset : tk.item_offset ≡ items.offset i

-- A tracker is dangling before the first item.
pub record IsRewound (tk : Tracker) : Type 0 where
  pub cur : tk.cur ≡ path_array (negsuc 0)
  pub filter : tk.has_filter ≡ false
  pub not_end : tk.at_end ≡ false
  pub forward : tk.reversed ≡ false
  pub needed : tk.need_item_offset ≡ true

-- A tracker is before item i, at the item before it or dangling.
abbrev pub IsBefore : Contents → ℕ → Tracker → Type 0
IsBefore items zero tk = IsRewound tk
IsBefore items (suc i) tk = IsAt items i tk

pub before-forward :
    (items : Contents) (i : ℕ) (tk : Tracker) → IsBefore items i tk → tk.reversed ≡ false
before-forward items zero tk rewound = rewound.forward
before-forward items (suc i) tk place = place.forward
