-- ===== src/Utils/DepResolver/Termination.antt =====
-- The loop comes to an end when the callback schedules nothing.
use bitpunch.Base.{
  ℕ, ◌≡◌, refl, ap, ◌∙◌, arith, ==_iff, List, [], ◌∷◌, Bool, true, false, Bool-cases, inl, inr, not,
  if◌then◌else◌,
}
use bitpunch.Utils.TagSet.{TagSet, minus, is_empty, contains, has_tag-minus, is_empty_complete}
use bitpunch.Utils.DepResolver.{
  dep_ok, Entry, Resolver, get_unresolved, set_resolved, clear_processing, set_processing,
  with_node, free_arg, ResolveFunc, Step, next, is_first, tail, finish_entry, start_entry,
  after_resolve, resolve_entry, step_at, Resolves, returns, continues,
}

contains_self : (t : TagSet) → contains t t ≡ true
unfolding contains
contains_self t = is_empty_complete (minus t t) (λ k. ground (arith, has_tag-minus t t k))

last_choice :
    (circular first all_resolved : Bool) (s1 s2 s3 s4 : Step)
    → circular ≡ false
    → first ≡ true
    → all_resolved ≡ true
    → (if circular then s1 else (if not first then s2 else (if not all_resolved then s3 else s4)))
      ≡ s4
last_choice circular first all_resolved s1 s2 s3 s4 c f g = rw (c, f, g) refl

-- The state at the end of a round.
abbrev ended : Resolver → Entry → Resolver
ended dr entry =
    free_arg (record dr { tasks = tail dr.tasks }) (not entry.keep_arg_on_free) entry.arg

entry_ends :
    (f : ResolveFunc) (dr : Resolver) (entry : Entry) (entries : List Entry)
    → ((d : Resolver) (node : ℕ) (tags : TagSet) (arg : ℕ) → f d node tags arg ≡ (d, tags))
    → dr.tasks ≡ entry ∷ entries
    → dr.circular_dep ≡ false
    → (dr1 : Resolver) × (resolve_entry f dr entry ≡ next dr1)
      × (dr1.tasks ≡ entries)
      × (dr1.circular_dep ≡ false)
unfolding resolve_entry start_entry finish_entry after_resolve
entry_ends f dr entry entries all tasks circular =
    let dr1 = start_entry dr entry in
    let u = get_unresolved (dr1.nodes entry.node) entry.tags in
    let dr2 = with_node dr1 entry.node (set_processing (dr1.nodes entry.node) u) in
    let first : is_first entry dr.tasks ≡ true =
      rw tasks ((==_iff entry.address entry.address).1 refl) in
    elim (Bool-cases (is_empty u)) [
      | inl e ↦ (ended dr1 entry, rw e refl, rw tasks refl, circular)
      | inr e ↦ (
        ended
            (with_node dr2 entry.node (set_resolved (clear_processing (dr2.nodes entry.node) u) u))
            entry,
        rw (e, all dr2 entry.node u entry.arg)
            (last_choice dr.circular_dep (is_first entry dr.tasks) (contains u u) _ _ _ _ circular
              first (contains_self u)),
        rw tasks refl,
        circular,
      )
    ]

-- With a callback that resolves all that it is asked for and schedules nothing, and without a
-- circular dependency noticed before, the resolution returns, and it returns DEP_RESOLVER_OK.
pub dep_resolver_resolve_returns :
    (f : ResolveFunc) (dr : Resolver) (tasks : List Entry)
    → ((d : Resolver) (node : ℕ) (tags : TagSet) (arg : ℕ) → f d node tags arg ≡ (d, tags))
    → dr.tasks ≡ tasks
    → dr.circular_dep ≡ false
    → (dr' : Resolver) × Resolves f dr dr' dep_ok
unfolding step_at
dep_resolver_resolve_returns f dr [] all e circular = (dr, returns dr dr dep_ok (rw e refl))
dep_resolver_resolve_returns f dr (entry ∷ entries) all e circular =
    let (dr1, step, left, still) = entry_ends f dr entry entries all e circular in
    let (dr', rest) = dep_resolver_resolve_returns f dr1 entries all left still in
    (dr', continues dr dr1 dr' dep_ok (ap (step_at f dr) e ∙ step) rest)
