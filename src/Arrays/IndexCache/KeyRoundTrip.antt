-- ===== src/Arrays/IndexCache/KeyRoundTrip.antt =====
-- The key and the number that are read for an item lead back to it.
use mathlib.Core.Path.{subst}
use bitpunch.Base.{false, ℕ, ◌≤◌, ◌<◌, ◌≡◌, refl, sym, inl, inr, arith, Option, some}
use bitpunch.Base.Int.{ℤ, pos}
use bitpunch.Status.{Result, ok}
use bitpunch.Expr.Values.{Value}
use bitpunch.Arrays.Tracker.{Tracker, path_array}
use bitpunch.Arrays.IndexCache.{Items, State}
use bitpunch.Arrays.IndexCache.Keyed.{tracker_goto_nth_item_with_key__indexed_array}
use bitpunch.Arrays.IndexCache.ItemKey.{
  with_number, tracker_lookup_current_twin_index, tracker_get_item_key__indexed_array_internal,
  tracker_get_item_key__indexed_array, tracker_get_item_key_multi_internal,
}
use bitpunch.Arrays.IndexCache.Placed.{Contents, IsAt}
use bitpunch.Arrays.IndexCache.Coherent.{IsCoherent}
use bitpunch.Arrays.IndexCache.Searched.{IsIndexed}
use bitpunch.Arrays.IndexCache.TwinsBefore.{twins_before-injective}
use bitpunch.Arrays.IndexCache.NthKeyed.{HasStayed, tracker_goto_nth_item_with_key_finds}
use bitpunch.Arrays.IndexCache.KeyNumber.{number_of, more_than_number, HasNumbered, lookup-numbers}

module _ (a : Items) (n : ℕ) (items : Contents) (i : ℕ) (inside : i < n)
    (v : IsIndexed a n items (items.key i)) where
  -- A move succeeds and leads to item i.
  abbrev pub IsBack : Result (Unit {0}) × State → Type 0
  IsBack (r, s) = (r ≡ ok tt) × IsAt items i s.tk

  -- The key and the number are read, with the tracker left where it is, and lead back from any
  -- other tracker in the box.
  abbrev pub LeadsBack : Tracker → Tracker → Tracker → Result (Value × Option ℤ) × State → Type 0
  LeadsBack new tk here (r, s) =
      (r ≡ ok (items.key i, some (pos (number_of a n items i inside v))))
      × (s.tk ≡ here)
      × IsBack (
          tracker_goto_nth_item_with_key__indexed_array a new (items.key i)
            (pos (number_of a n items i inside v)) (record s { tk = tk }))

  nth-IsBack :
      (tk : Tracker) (r : Result (Unit {0}) × State)
      → HasStayed a n items (items.key i) v (number_of a n items i inside v) tk r
      → IsBack r
  nth-IsBack tk (r, s) (inl one) =
      let same =
        twins_before-injective n items (items.key i) one.j i v.comparable one.inside inside one.here
          refl one.number in
      (one.found, subst (λ (j : ℕ). IsAt items j s.tk) same one.place)
  nth-IsBack tk (r, s) (inr (few, stays)) =
      absurd (omega (arith, few.fewer, more_than_number a n items i inside v))

  numbered-LeadsBack :
      (new tk here : Tracker) (z : ℤ) (r : Result ℤ × State)
      → tk.cur ≡ path_array z
      → tk.reversed ≡ false
      → new.reversed ≡ false
      → HasNumbered a n items i inside v here r
      → LeadsBack new tk here (with_number (items.key i) r)
  numbered-LeadsBack new tk here z (r, s) at forward new_forward numbered =
      subst (λ (q : Result ℤ). LeadsBack new tk here (with_number (items.key i) (q, s)))
        (sym numbered.read)
        (
          refl,
          numbered.stays,
          nth-IsBack tk
              (tracker_goto_nth_item_with_key__indexed_array a new (items.key i)
                (pos (number_of a n items i inside v)) (record s { tk = tk }))
              (tracker_goto_nth_item_with_key_finds a n items (items.key i) v
                (number_of a n items i inside v) new numbered.count (record s { tk = tk }) z
                numbered.coherent numbered.most at forward new_forward),
        )

  -- The key is evaluated, and its number looked up.
  get-eq :
      (new : Tracker) (s : State)
      → IsAt items i s.tk
      → tracker_get_item_key_multi_internal a new s
        ≡ with_number
            (items.key i)
            (tracker_lookup_current_twin_index a new (items.key i) (pos 0) s)
  unfolding tracker_get_item_key_multi_internal tracker_get_item_key__indexed_array
      tracker_get_item_key__indexed_array_internal
  get-eq new s place =
      let at = place.cur in
      let standing = place.filter in
      let evaluated = v.keys i s.tk place inside in
      let keyed = v.keyed in ground (arith, at, evaluated, keyed, standing)

-- Of a forward tracker that stands at item i of an indexed array whose keys can be compared, with a
-- cache of some of its first items, the key of the item and its number are read: the number is how
-- many items before it have the same key. The tracker stays where it is, and the move to the item
-- with that key and that number leads back to item i and its offset, from any forward tracker in
-- the same box. The moves to the next item and the evaluation of a key are taken to work for
-- forward trackers that are dangling or stand at an item with its offset, as IsIndexed says.
pub tracker_goto_nth_item_with_key-get_item_key :
    (a : Items) (n : ℕ) (items : Contents) (i : ℕ) (inside : i < n)
    (v : IsIndexed a n items (items.key i)) (new new' tk : Tracker) (c : ℕ) (s : State) (z : ℤ)
    → IsCoherent items c s.cache
    → c ≤ n
    → IsAt items i s.tk
    → tk.cur ≡ path_array z
    → tk.reversed ≡ false
    → new.reversed ≡ false
    → new'.reversed ≡ false
    → LeadsBack a n items i inside v new' tk s.tk (tracker_get_item_key_multi_internal a new s)
tracker_goto_nth_item_with_key-get_item_key a n items i inside v new new' tk c s z w most place at
      forward new_forward new_forward' =
    subst (LeadsBack a n items i inside v new' tk s.tk)
      (sym (get-eq a n items i inside v new s place))
      (numbered-LeadsBack a n items i inside v new' tk s.tk z
        (tracker_lookup_current_twin_index a new (items.key i) (pos 0) s) at forward new_forward'
        (lookup-numbers a n items i inside v s place.cur place.forward new c w most new_forward))
