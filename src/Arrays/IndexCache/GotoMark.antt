-- ===== src/Arrays/IndexCache/GotoMark.antt =====
-- The move of a tracker to a mark that the cache holds.
use bitpunch.Base.{
  ℕ, ◌*◌, ◌/◌, ◌^◌, ◌<◌, ◌≡◌, ◌∙◌, refl, sym, ap, arith, false, Option, none, some, List, get_or,
}
use bitpunch.Base.Int.{ℤ, pos, ◌+ℤ◌, ◌*ℤ◌}
use bitpunch.Status.{ok}
use bitpunch.Expr.Values.{Value}
use bitpunch.Browse.Box.{unset}
use bitpunch.Arrays.Tracker.{Tracker, path_array, tracker_set_dangling}
use bitpunch.Arrays.IndexCache.{
  ArrayCache, Items, State, array_get_mark_start_index, array_get_mark_offset_at_index,
  array_get_index_mark,
}
use bitpunch.Arrays.IndexCache.MarkPlaces.{HasMarks}
use bitpunch.Arrays.IndexCache.Moves.{mark_item_offset, tracker_goto_mark_internal}
use bitpunch.Arrays.IndexCache.Placed.{Contents, IsAt}
use bitpunch.Arrays.IndexCache.Coherent.{IsCoherent}
use bitpunch.Arrays.IndexCache.Searched.{IsIndexed}

pub mark_start :
    (cache : ArrayCache) (m : ℕ)
    → cache.cache_log2_n_keys_per_mark ≡ 5
    → array_get_mark_start_index cache m ≡ pos (m * 32)
unfolding array_get_mark_start_index
mark_start cache m e = ap (λ (k : ℕ). pos (m * 2 ^ k)) e

-- The offset of a mark that the cache holds.
marks-offset :
    (a : Items) (n : ℕ) (items : Contents) (wanted : Value) (v : IsIndexed a n items wanted)
    (m c : ℕ) (cache : ArrayCache) (marks : Option (List ℤ))
    → cache.cache_log2_n_keys_per_mark ≡ 5
    → HasMarks items c marks
    → m * 32 < c
    → elim marks [
      | some offsets ↦ array_get_mark_offset_at_index cache offsets (pos (m * 32))
      | none ↦ a.start_offset_span +ℤ (pos (m * 32) *ℤ a.item_min_span_size)
    ]
      ≡ items.offset (m * 32)
unfolding array_get_mark_offset_at_index array_get_index_mark
marks-offset a n items wanted v m c cache none log2 fixed inside = sym (v.fixed fixed (m * 32))
marks-offset a n items wanted v m c cache (some offsets) log2 (count, held) inside =
    let mark : m * 32 / 32 ≡ m = omega arith in
    ap (λ (k : ℕ). get_or offsets (m * 32 / 2 ^ k) unset) log2
    ∙ ap (λ (k : ℕ). get_or offsets k unset) mark
    ∙ held m inside

pub goto_mark-place :
    (a : Items) (n : ℕ) (items : Contents) (wanted : Value) (v : IsIndexed a n items wanted)
    (m c : ℕ) (s : State)
    → IsCoherent items c s.cache
    → m * 32 < c
    → s.tk.reversed ≡ false
    → (tk : Tracker) × (tracker_goto_mark_internal a m s
        ≡ (ok tt, record { tk = tk; cache = s.cache }))
      × IsAt items (m * 32) tk
unfolding tracker_goto_mark_internal tracker_set_dangling mark_item_offset
goto_mark-place a n items wanted v m c s w inside forward =
    let start = mark_start s.cache m w.log2 in
    rw v.typed (
      _,
      refl,
      record {
        cur = ap path_array start;
        filter = refl;
        not_end = refl;
        forward = forward;
        needed = refl;
        offset =
            ap (mark_item_offset a s.cache) start
            ∙ marks-offset a n items wanted v m c s.cache s.cache.mark_offsets w.log2 w.marks
                inside;
      },
    )
