-- ===== src/Arrays/IndexCache/Searched.antt =====
-- What it is to find the first item with a key.
use mathlib.Core.Path.{subst}
use bitpunch.Base.{
  Bool, Bool-cases, ap, arith, false, if◌then◌else◌, inl, inr, ltb, not, refl, some, suc, sym, true,
  zero, ℕ, ◌+◌, ◌<◌, ◌==◌, ◌∙◌, ◌≡◌, ◌≢◌, ◌≤◌, ◌⊎◌,
}
use bitpunch.Base.Int.{ℤ, pos, ◌+ℤ◌, ◌*ℤ◌}
use bitpunch.Status.{Result, ok, err, no_item}
use bitpunch.Expr.Values.{Value, expr_value_cmp}
use bitpunch.Arrays.Tracker.{Tracker}
use bitpunch.Arrays.IndexCache.{
  tracker_goto_next_item_internal, Op, andthen, moved, go_next, ArrayCache, Items, State,
}
use bitpunch.Arrays.IndexCache.Placed.{Contents, IsAt, IsRewound, IsBefore}
use bitpunch.Arrays.IndexCache.Coherent.{IsCoherent}

-- An array of n items, which a tracker moves through one by one, with keys that can be compared to
-- the one that is wanted. Of the moves and of the evaluation of the key it says what they do for a
-- tracker that is before an item, dangling or at the item before it, or that stands at one, with the
-- offset of that item. No loop needs more rounds than there are items.
pub record IsIndexed (a : Items) (n : ℕ) (items : Contents) (wanted : Value) : Type 0 where
  pub filter : a.is_filter ≡ true
  pub keyed : a.has_key_expr ≡ true
  pub typed : a.item_type ≡ ok items.is_variable
  pub fixed :
      items.is_variable ≡ false
      → (i : ℕ) → items.offset i ≡ (a.start_offset_span +ℤ (pos i *ℤ a.item_min_span_size))
  pub rounds : n + 2 ≤ a.max_rounds
  pub first :
      (tk : Tracker)
      → IsRewound tk
      → 0 < n
      → (tk' : Tracker) × (a.goto_first_item tk ≡ (ok tt, tk')) × IsAt items 0 tk'
  pub empty :
      (tk : Tracker)
      → IsRewound tk
      → n ≡ 0
      → (tk' : Tracker) × (a.goto_first_item tk ≡ (err no_item, tk')) × (tk'.reversed ≡ false)
  pub next :
      (i : ℕ) (tk : Tracker)
      → IsAt items i tk
      → suc i < n
      → (tk' : Tracker) × (a.goto_next_item tk ≡ (ok tt, tk')) × IsAt items (suc i) tk'
  pub last :
      (i : ℕ) (tk : Tracker)
      → IsAt items i tk
      → suc i ≡ n
      → (tk' : Tracker) × (a.goto_next_item tk ≡ (err no_item, tk')) × (tk'.reversed ≡ false)
  pub keys : (i : ℕ) (tk : Tracker) → IsAt items i tk → i < n → a.item_key tk ≡ ok (items.key i)
  pub comparable : (i : ℕ) → i < n → (c : ℤ) × (expr_value_cmp (items.key i) wanted ≡ some c)

-- The choice between the first item and the next one, for a tracker that is not at the end.
next_item-eq :
    (a : Items) (tk : Tracker) (stands : Bool)
    → tk.at_end ≡ false
    → tk.has_filter ≡ stands
    → tracker_goto_next_item_internal a tk
      ≡ (if not stands then a.goto_first_item tk else a.goto_next_item tk)
next_item-eq a tk stands open_end filter =
    ap (λ b. if b then (err no_item, tk) else chosen tk.has_filter) open_end ∙ ap chosen filter
  where
    chosen : Bool → Result (Unit {0}) × Tracker
    chosen filter = if not filter then a.goto_first_item tk else a.goto_next_item tk

module _ (a : Items) (n : ℕ) (items : Contents) (wanted : Value)
    (v : IsIndexed a n items wanted) where
  -- The move from before an item to the item, and behind the last one.
  pub next-place :
      (i : ℕ) (tk : Tracker)
      → IsBefore items i tk
      → i < n
      → (tk' : Tracker) × (tracker_goto_next_item_internal a tk ≡ (ok tt, tk')) × IsAt items i tk'
  next-place zero tk rewound inside =
      let (tk', moved_to, place) = v.first tk rewound inside in
      (tk', next_item-eq a tk false rewound.not_end rewound.filter ∙ moved_to, place)
  next-place (suc i) tk at inside =
      let (tk', moved_to, place) = v.next i tk at inside in
      (tk', next_item-eq a tk true at.not_end at.filter ∙ moved_to, place)

  pub last-forward :
      (i : ℕ) (tk : Tracker)
      → IsBefore items i tk
      → i ≡ n
      → (tk' : Tracker) × (tracker_goto_next_item_internal a tk ≡ (err no_item, tk'))
        × (tk'.reversed ≡ false)
  last-forward zero tk rewound end =
      let (tk', ended, forward) = v.empty tk rewound (sym end) in
      (tk', next_item-eq a tk false rewound.not_end rewound.filter ∙ ended, forward)
  last-forward (suc i) tk at end =
      let (tk', ended, forward) = v.last i tk at end in
      (tk', next_item-eq a tk true at.not_end at.filter ∙ ended, forward)

module _ (n : ℕ) (items : Contents) (wanted : Value) where
  -- No item from `lo` on and before `hi` has the key.
  abbrev pub IsAbsent : ℕ → ℕ → Type 0
  IsAbsent lo hi = (i : ℕ) → lo ≤ i → i < hi → i < n → items.key i ≢ wanted

  -- Item j is the first one with the key from `lo` on, and is before `hi`.
  pub record IsFirst (lo hi j : ℕ) : Type 0 where
    pub from : lo ≤ j
    pub to : j < hi
    pub inside : j < n
    pub here : items.key j ≡ wanted
    pub earlier : IsAbsent lo j

  -- The cache holds at least c items, and no more than there are.
  pub record HasGrown (c : ℕ) (cache : ArrayCache) : Type 0 where
    pub count : ℕ
    pub least : c ≤ count
    pub most : count ≤ n
    pub coherent : IsCoherent items count cache

  -- The tracker is moved to the first item with the key.
  pub record IsHit (lo hi c : ℕ) (r : Result (Unit {0})) (s : State) : Type 0 where
    pub j : ℕ
    pub first : IsFirst lo hi j
    pub found : r ≡ ok tt
    pub place : IsAt items j s.tk
    pub grown : HasGrown c s.cache
    pub known : j < grown.count

  pub record IsMiss (lo hi c : ℕ) (r : Result (Unit {0})) (s : State) : Type 0 where
    pub absent : IsAbsent lo hi
    pub none_found : r ≡ err no_item
    pub forward : s.tk.reversed ≡ false
    pub grown : HasGrown c s.cache

  abbrev pub HasSearched : ℕ → ℕ → ℕ → Result (Unit {0}) × State → Type 0
  HasSearched lo hi c (r, s) = IsHit lo hi c r s ⊎ IsMiss lo hi c r s

  pub join_ranges : (lo lo' hi : ℕ) → IsAbsent lo lo' → IsAbsent lo' hi → IsAbsent lo hi
  join_ranges lo lo' hi passed absent i from to inside = elim (Bool-cases (ltb i lo')) [
    | inl early ↦ passed i from (ground arith) inside
    | inr late ↦ absent i (ground arith) to inside
  ]

  abbrev pub grown-earlier :
      (c c' : ℕ) (cache : ArrayCache) → c ≤ c' → HasGrown c' cache → HasGrown c cache
  grown-earlier c c' cache le grown = record {
    count = grown.count;
    least = omega (arith, grown.least);
    most = grown.most;
    coherent = grown.coherent;
  }

  -- A search that goes on behind items without the key is a search from the first of them.
  pub success_earlier :
      (lo lo' hi c c' : ℕ) (r : Result (Unit {0})) (s : State)
      → IsAbsent lo lo'
      → lo ≤ lo'
      → c ≤ c'
      → IsHit lo' hi c' r s
      → IsHit lo hi c r s
  success_earlier lo lo' hi c c' r s passed le grow hit =
      let first = hit.first in
      record {
        j = hit.j;
        first = record {
          from = omega (arith, first.from);
          to = first.to;
          inside = first.inside;
          here = first.here;
          earlier = join_ranges lo lo' hit.j passed first.earlier;
        };
        found = hit.found;
        place = hit.place;
        grown = grown-earlier c c' s.cache grow hit.grown;
        known = hit.known;
      }

  pub failure_earlier :
      (lo lo' hi c c' : ℕ) (r : Result (Unit {0})) (s : State)
      → IsAbsent lo lo'
      → c ≤ c'
      → IsMiss lo' hi c' r s
      → IsMiss lo hi c r s
  failure_earlier lo lo' hi c c' r s passed grow miss = record {
    absent = join_ranges lo lo' hi passed miss.absent;
    none_found = miss.none_found;
    forward = miss.forward;
    grown = grown-earlier c c' s.cache grow miss.grown;
  }

  pub search-earlier :
      (lo lo' hi c c' : ℕ) (r : Result (Unit {0}) × State)
      → IsAbsent lo lo'
      → lo ≤ lo'
      → c ≤ c'
      → HasSearched lo' hi c' r
      → HasSearched lo hi c r
  search-earlier lo lo' hi c c' (r, s) passed le grow (inl hit) =
      inl (success_earlier lo lo' hi c c' r s passed le grow hit)
  search-earlier lo lo' hi c c' (r, s) passed le grow (inr miss) =
      inr (failure_earlier lo lo' hi c c' r s passed grow miss)

  -- An item without the key is passed over.
  pub one_item_range : (i : ℕ) → items.key i ≢ wanted → IsAbsent i (suc i)
  one_item_range i other k from to inside =
      let same : k ≡ i = omega arith in subst (λ (j : ℕ). items.key j ≢ wanted) (sym same) other

  pub empty_range : (lo hi : ℕ) → hi ≤ lo → IsAbsent lo hi
  empty_range lo hi le k from to inside = let absurdity : ⊥ = omega arith in elim absurdity [ ]

  -- The move to item i and a search from there; behind the last item there is nothing to find.
  pub next-searches :
      (a : Items) (op : Op) (i hi c : ℕ) (s : State)
      → IsIndexed a n items wanted
      → IsCoherent items c s.cache
      → c ≤ n
      → i ≤ n
      → IsBefore items i s.tk
      → ((tk : Tracker)
          → IsAt items i tk
          → i < n
          → HasSearched i hi c (op (record { tk = tk; cache = s.cache })))
      → HasSearched i hi c (andthen (go_next a s) op)
  next-searches a op i hi c s v w most le place search = elim (Bool-cases (i == n)) [
    | inl end ↦
        let same : i ≡ n = ground arith in
        let (tk, ended, forward) = last-forward a n items wanted v i s.tk place same in
        subst (HasSearched i hi c) (sym (ap (λ r. andthen (moved s.cache r) op) ended)) (
          inr (record {
            absent = λ k from to inside. let absurdity : ⊥ = omega arith in elim absurdity [ ];
            none_found = refl;
            forward = forward;
            grown = record { count = c; least = omega arith; most = most; coherent = w };
          }))
    | inr within ↦
        let inside : i < n = ground arith in
        let (tk, next, place') = next-place a n items wanted v i s.tk place inside in
        subst (HasSearched i hi c) (sym (ap (λ r. andthen (moved s.cache r) op) next))
          (search tk place' inside)
  ]
