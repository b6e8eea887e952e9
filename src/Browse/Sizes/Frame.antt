-- ===== src/Browse/Sizes/Frame.antt =====
-- Computing a size leaves the scope and the flags of the boxes as they were.
use bitpunch.Base.{
  ℕ, Bool, true, false, not, ◌&&◌, ◌||◌, if◌then◌else◌, ◌≡◌, refl, sym, ap, ◌∙◌, List, ◌∷◌, map,
}
use bitpunch.Base.Int.{ℤ, ◌-ℤ◌}
use bitpunch.Status.{Result, ok, err}
use bitpunch.Browse.Box.{Box}
use bitpunch.Browse.Box.Place.{box_set_span_size}
use bitpunch.Browse.Sizes.{
  BoxNode, State, Op, Backends, andthen, ◌>>=◌, ◌>>◌, pure, finally, in_scope, on_box, is_set,
  set_computing, box_compute_min_span_size, box_compute_used_size, compute_max_span,
  box_compute_max_span_size, choose_span, box_compute_span_size, size_of, box_get_min_span_size,
  box_get_used_size, box_get_span_size, box_get_max_span_size, maximum_first, is_tight,
}

-- The address and the flags of a box that a computation sets for its duration.
pub record Mark : Type 0 where
  pub address : ℕ
  pub computing : Bool
  pub allocating : Bool

abbrev pub mark : BoxNode → Mark
mark n = record {
  address = n.address;
  computing = n.computing_span_size;
  allocating = n.computing_slack_child_allocation;
}

abbrev pub marks : State → List Mark
marks s = mark s.node ∷ map mark s.parents

-- The scope, the addresses and the flags of the box and its ancestors are the same.
pub record IsSame (s s' : State) : Type 0 where
  pub scope : s'.scope ≡ s.scope
  pub here : mark s'.node ≡ mark s.node
  pub above : map mark s'.parents ≡ map mark s.parents

abbrev pub Keeps : {A : Type 0} → Op A → Type 0
Keeps op = (s : State) → IsSame s (op s).1

pub IsSame-refl : (s : State) → IsSame s s
IsSame-refl s = record { scope = refl; here = refl; above = refl }

pub IsSame-trans : (s s' s'' : State) → IsSame s s' → IsSame s' s'' → IsSame s s''
IsSame-trans s s' s'' a b = record {
  scope = b.scope ∙ a.scope;
  here = b.here ∙ a.here;
  above = b.above ∙ a.above;
}

pub after-IsSame :
    {A B : Type 0} (s : State) (r : Result A × State) (k : A → Op B)
    → IsSame s r.1
    → ((a : A) → Keeps (k a))
    → IsSame s (andthen r k).1
after-IsSame s (ok a, s') k h kept = IsSame-trans s s' (k a s').1 h (kept a s')
after-IsSame s (err e, s') k h kept = h

pub >>=-Keeps :
    {A B : Type 0} (op : Op A) (k : A → Op B)
    → Keeps op
    → ((a : A) → Keeps (k a))
    → Keeps (op >>= k)
>>=-Keeps op k h kept = λ s. after-IsSame s (op s) k (h s) kept

pub in_scope-Keeps : {A : Type 0} (op : Op A) → Keeps op → Keeps (in_scope op)
unfolding in_scope
in_scope-Keeps op h = λ s.
    let same = h (record s { scope = s.node.address }) in
    record { scope = refl; here = same.here; above = same.above }

pub on_box-Keeps : (f : Box → Result Box) → Keeps (on_box f)
on_box-Keeps f = λ s. put s (f s.node.box)
  where
    put : (s : State) (r : Result Box) → IsSame s (on_box (λ _. r) s).1
    put s (ok box) = record { scope = refl; here = refl; above = refl }
    put s (err e) = record { scope = refl; here = refl; above = refl }

pub if-Keeps :
    {A : Type 0} (b : Bool) (s : State) (op op' : Op A)
    → Keeps op
    → Keeps op'
    → IsSame s (if b then op s else op' s).1
if-Keeps true s op op' h h' = h s
if-Keeps false s op op' h h' = h' s

pub pure-Keeps : {A : Type 0} (a : A) → Keeps (pure a)
pure-Keeps a = IsSame-refl

-- The backends, and the filters of the parents, keep the scope and the flags.
pub record AreKeeping (h : Backends) : Type 0 where
  pub apply : Keeps h.apply_parent_filter
  pub min_span : Keeps h.compute_min_span_size
  pub span : Keeps h.compute_span_size
  pub max_span : Keeps h.compute_max_span_size
  pub used : Keeps h.compute_used_size

module _ (h : Backends) (w : AreKeeping h) where
  pub min_span-Keeps : Keeps (box_compute_min_span_size h)
  unfolding box_compute_min_span_size
  min_span-Keeps = λ s.
      if-Keeps (is_set s.node.box.start_offset_min_span && is_set s.node.box.end_offset_min_span) s
        (pure tt) (h.apply_parent_filter >> in_scope h.compute_min_span_size) (pure-Keeps tt)
        (>>=-Keeps h.apply_parent_filter (λ _. in_scope h.compute_min_span_size) w.apply
          (λ _. in_scope-Keeps h.compute_min_span_size w.min_span))

  pub used-Keeps : Keeps (box_compute_used_size h)
  unfolding box_compute_used_size
  used-Keeps = λ s.
      if-Keeps (is_set s.node.box.start_offset_used && is_set s.node.box.end_offset_used) s
        (pure tt) (h.apply_parent_filter >> in_scope h.compute_used_size) (pure-Keeps tt)
        (>>=-Keeps h.apply_parent_filter (λ _. in_scope h.compute_used_size) w.apply
          (λ _. in_scope-Keeps h.compute_used_size w.used))

  -- The flag is down before the backend is called, so that it is put back as it was.
  max_span_again :
      (s : State)
      → s.node.computing_span_size ≡ false
      → IsSame s
          (finally
            (in_scope h.compute_max_span_size)
            (set_computing false)
            (set_computing true s)).1
  max_span_again s down =
      let same = in_scope-Keeps h.compute_max_span_size w.max_span (set_computing true s) in
      record {
        scope = same.scope;
        here =
            ap (λ (m : Mark). record m { computing = false }) same.here
            ∙ (ap (λ (b : Bool). record (mark s.node) { computing = b }) (sym down));
        above = same.above;
      }

  pub max_span-Keeps : Keeps (box_compute_max_span_size h)
  unfolding box_compute_max_span_size compute_max_span
  max_span-Keeps =
      >>=-Keeps h.apply_parent_filter (λ _. compute_max_span h) w.apply
        (λ _ s.
          choose_max s
            (is_set s.node.box.start_offset_max_span && is_set s.node.box.end_offset_max_span)
            s.node.computing_span_size refl)
    where
      choose_max :
          (s : State) (known up : Bool)
          → s.node.computing_span_size ≡ up
          → IsSame s
              (if known || up
                then pure tt s
                else finally
                    (in_scope h.compute_max_span_size)
                    (set_computing false)
                    (set_computing true s)).1
      choose_max s true up e = IsSame-refl s
      choose_max s false true e = IsSame-refl s
      choose_max s false false e = max_span_again s e

  pub span-Keeps : Keeps (box_compute_span_size h)
  unfolding box_compute_span_size choose_span
  span-Keeps = λ s.
      if-Keeps (is_set s.node.box.start_offset_span && is_set s.node.box.end_offset_span) s
        (pure tt) (box_compute_min_span_size h >> maximum_first h >> choose_span h) (pure-Keeps tt)
        (>>=-Keeps (box_compute_min_span_size h >> maximum_first h) (λ _. choose_span h)
          (>>=-Keeps (box_compute_min_span_size h) (λ _. maximum_first h) min_span-Keeps
            (λ _ s'.
              if-Keeps s'.node.computing_span_size s' (pure tt) (box_compute_max_span_size h)
                (pure-Keeps tt) max_span-Keeps))
          (λ _ s'.
            if-Keeps (not s'.node.computing_span_size && is_tight h s'.node.box) s'
              (on_box (λ box'.
                box_set_span_size box'
                  (s'.node.box.end_offset_max_span -ℤ s'.node.box.start_offset_max_span)))
              (in_scope h.compute_span_size)
              (on_box-Keeps (λ box'.
                box_set_span_size box'
                  (s'.node.box.end_offset_max_span -ℤ s'.node.box.start_offset_max_span)))
              (in_scope-Keeps h.compute_span_size w.span)))

  size_of-Keeps : (start end : Box → ℤ) → Keeps (size_of h start end)
  size_of-Keeps start end = IsSame-refl

-- When the filters of the parents and the backends keep the scope of the evaluation, the boxes'
-- addresses and their flags, so does asking a box for its minimum span size, its span size, its
-- maximum span size or its used size, whether or not the call succeeds.
pub box_get_size-Keeps :
    (h : Backends)
    → AreKeeping h
    → Keeps (box_get_min_span_size h)
      × Keeps (box_get_span_size h)
      × Keeps (box_get_max_span_size h)
      × Keeps (box_get_used_size h)
unfolding box_get_min_span_size box_get_span_size box_get_max_span_size box_get_used_size
box_get_size-Keeps h w =
    let kept = λ (op : Op (Unit {0})) (start end : Box → ℤ) (k : Keeps op).
      >>=-Keeps op (λ _. size_of h start end) k (λ _. size_of-Keeps h w start end) in
    (
      kept (box_compute_min_span_size h) (λ b. b.start_offset_min_span) (λ b. b.end_offset_min_span)
          (min_span-Keeps h w),
      kept (box_compute_span_size h) (λ b. b.start_offset_span) (λ b. b.end_offset_span)
          (span-Keeps h w),
      kept (box_compute_max_span_size h) (λ b. b.start_offset_max_span) (λ b. b.end_offset_max_span)
          (max_span-Keeps h w),
      kept (box_compute_used_size h) (λ b. b.start_offset_used) (λ b. b.end_offset_used)
          (used-Keeps h w),
    )
