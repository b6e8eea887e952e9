-- ===== src/Utils/DepResolver/Progress.antt =====
-- The rounds of the loop, and the resolution as a whole.
use bitpunch.Base.{
  ==_iff, ℕ, ◌≡◌, ◌≢◌, refl, ◌∙◌, ◌⊎◌, inl, inr, List, [], ◌∷◌, Bool, true, false, Bool-cases, not,
  ◌==◌, if◌then◌else◌,
}
use mathlib.Core.Path.{subst}
use bitpunch.Utils.TagSet.{TagSet, has_tag, is_empty, contains, has_tag-union}
use bitpunch.Utils.DepResolver.{
  DepStatus, dep_ok, dep_error, dep_circular, NodeTags, Entry, Resolver, get_unresolved,
  set_resolved, clear_processing, set_processing, with_node, ResolveFunc, Step, next, stop,
  is_first, finish_entry, start_entry, after_resolve, resolve_entry, step_at, Resolves, returns,
  continues,
}
use bitpunch.Utils.DepResolver.Resolved.{
  IsIn, Grows, IsResolved, IsValid, IsHonest, Grows-IsResolved, tail_distinct, tail_below,
  first_entry, IsProgress, resolved_now,
}

next_injective : {dr dr' : Resolver} → next dr ≡ next dr' → dr ≡ dr'
next_injective h = cc

finish-IsProgress :
    (dr dr' : Resolver) (entry : Entry)
    → IsValid dr
    → IsIn entry dr.tasks
    → is_first entry dr.tasks ≡ true
    → IsResolved dr entry
    → finish_entry dr entry ≡ next dr'
    → IsProgress dr dr'
unfolding finish_entry
finish-IsProgress dr dr' entry valid inside first resolved h =
    subst (λ x. IsProgress dr x) (next_injective h)
      (
        (λ i k set. set),
        (λ e he. elim (first_entry entry e dr.tasks valid.0 inside first he) [
          | inl same ↦ inr (rw same resolved)
          | inr behind ↦ inl behind
        ]),
        (tail_distinct dr.tasks valid.0, tail_below dr.next_address dr.tasks valid.1),
      )

-- The node after the callback has every tag that it had, and the resolved ones.
abbrev node_after : Resolver → Entry → TagSet → NodeTags
node_after dr entry resolved =
    set_resolved (clear_processing (dr.nodes entry.node) resolved) resolved

abbrev resolver_after : Resolver → Entry → TagSet → Resolver
resolver_after dr entry resolved = with_node dr entry.node (node_after dr entry resolved)

after-Grows :
    (dr : Resolver) (entry : Entry) (resolved : TagSet)
    → Grows dr (resolver_after dr entry resolved)
after-Grows dr entry resolved i k h = elim (Bool-cases (i == entry.node)) [
  | inl e ↦
      let h' : has_tag (dr.nodes entry.node).resolved_tags k ≡ true =
        subst (λ j. has_tag (dr.nodes j).resolved_tags k ≡ true) ((==_iff i entry.node).0 e) h in
      rw e (has_tag-union (dr.nodes entry.node).resolved_tags resolved k ∙ rw h' refl)
  | inr e ↦ rw e h
]

-- The two ways in which the round behind a callback goes on.
choices :
    (circular first all_resolved : Bool) (dr1 dr2 dr' : Resolver) (x y : Step)
    → (if circular
        then stop dr1 dep_circular
        else (if not first then x else (if not all_resolved then stop dr2 dep_error else y)))
      ≡ next dr'
    → ((first ≡ false) × (x ≡ next dr')) ⊎ ((first ≡ true) × (all_resolved ≡ true) × (y ≡ next dr'))
choices true first all_resolved dr1 dr2 dr' x y h = cc
choices false false all_resolved dr1 dr2 dr' x y h = inl (refl, h)
choices false true false dr1 dr2 dr' x y h = cc
choices false true true dr1 dr2 dr' x y h = inr (refl, refl, h)

after-IsProgress :
    (dr0 dr dr' : Resolver) (entry : Entry) (resolved : TagSet)
    → Grows dr0 dr
    → ((e : Entry) → IsIn e dr0.tasks → IsIn e dr.tasks)
    → IsValid dr
    → IsIn entry dr0.tasks
    → after_resolve entry (get_unresolved (dr0.nodes entry.node) entry.tags) (dr, resolved)
      ≡ next dr'
    → IsProgress dr0 dr'
unfolding after_resolve
after-IsProgress dr0 dr dr' entry resolved grows kept valid inside h =
    let dr1 = resolver_after dr entry resolved in
    let all_grow : Grows dr0 dr1 = λ i k set. after-Grows dr entry resolved i k (grows i k set) in
    elim (choices dr.circular_dep (is_first entry dr.tasks)
      (contains resolved (get_unresolved (dr0.nodes entry.node) entry.tags)) _ _ dr' _ _ h) [
        | inl (f, again) ↦
            subst (λ x. IsProgress dr0 x) (next_injective again)
              (all_grow, (λ t ht. inl (kept t ht)), valid)
        | inr (f, g, end) ↦
            let now : IsResolved dr1 entry =
              rw ((==_iff entry.node entry.node).1 refl)
                (resolved_now (dr0.nodes entry.node) dr entry resolved (grows entry.node) g) in
            let (more, left, apart) =
              finish-IsProgress dr1 dr' entry valid (kept entry inside) f now end in
            ((λ i k set. more i k (all_grow i k set)), (λ t ht. left t (kept t ht)), apart)
      ]

processing-Grows :
    (dr : Resolver) (i : ℕ) (tags : TagSet)
    → Grows dr (with_node dr i (set_processing (dr.nodes i) tags))
processing-Grows dr i tags j k h = elim (Bool-cases (j == i)) [
  | inl e ↦ rw e (subst (λ n. has_tag (dr.nodes n).resolved_tags k ≡ true) ((==_iff j i).0 e) h)
  | inr e ↦ rw e h
]

entry-IsProgress :
    (f : ResolveFunc) (dr dr' : Resolver) (entry : Entry) (entries : List Entry)
    → IsHonest f
    → IsValid dr
    → dr.tasks ≡ entry ∷ entries
    → resolve_entry f dr entry ≡ next dr'
    → IsProgress dr dr'
unfolding resolve_entry start_entry
entry-IsProgress f dr dr' entry entries honest valid tasks h =
    let dr1 = start_entry dr entry in
    let u = get_unresolved (dr1.nodes entry.node) entry.tags in
    let dr2 = with_node dr1 entry.node (set_processing (dr1.nodes entry.node) u) in
    let inside : IsIn entry dr.tasks = rw tasks (inl refl) in
    let first : is_first entry dr.tasks ≡ true =
      rw tasks ((==_iff entry.address entry.address).1 refl) in
    elim (Bool-cases (is_empty u)) [
      | inl e ↦ finish-IsProgress dr1 dr' entry valid inside first e (rw e at h)
      | inr e ↦
          let (grows, kept, still) = honest dr2 entry.node u entry.arg valid in
          let called = f dr2 entry.node u entry.arg in
          after-IsProgress dr called.0 dr' entry called.1
            (λ i k set. grows i k (processing-Grows dr1 entry.node u i k set)) kept still inside
            (rw e at h)
    ]

step-IsProgress :
    (f : ResolveFunc) (dr dr' : Resolver) (tasks : List Entry)
    → IsHonest f
    → IsValid dr
    → dr.tasks ≡ tasks
    → step_at f dr tasks ≡ next dr'
    → IsProgress dr dr'
unfolding step_at
step-IsProgress f dr dr' [] honest valid e h = cc
step-IsProgress f dr dr' (entry ∷ entries) honest valid e h =
    entry-IsProgress f dr dr' entry entries honest valid e h

no_choice :
    (circular first all_resolved : Bool) (dr1 dr2 dr' dr3 dr4 : Resolver)
    → (if circular
        then stop dr1 dep_circular
        else (if not first
            then next dr3
            else (if not all_resolved then stop dr2 dep_error else next dr4)))
      ≢ stop dr' dep_ok
no_choice true first all_resolved dr1 dr2 dr' dr3 dr4 h = cc
no_choice false false all_resolved dr1 dr2 dr' dr3 dr4 h = cc
no_choice false true false dr1 dr2 dr' dr3 dr4 h = cc
no_choice false true true dr1 dr2 dr' dr3 dr4 h = cc

entry_stops :
    (f : ResolveFunc) (dr dr' : Resolver) (entry : Entry)
    → resolve_entry f dr entry ≢ stop dr' dep_ok
unfolding resolve_entry start_entry after_resolve finish_entry
entry_stops f dr dr' entry h =
    elim (Bool-cases (is_empty (get_unresolved (dr.nodes entry.node) entry.tags))) [
      | inl e ↦ let k = (rw e at h) in cc
      | inr e ↦ no_choice _ _ _ _ _ dr' _ _ (rw e at h)
    ]

step_done :
    (f : ResolveFunc) (dr dr' : Resolver) (tasks : List Entry)
    → step_at f dr tasks ≡ stop dr' dep_ok
    → (tasks ≡ []) × (dr ≡ dr')
unfolding step_at
step_done f dr dr' [] h = (refl, cc)
step_done f dr dr' (entry ∷ entries) h = absurd (entry_stops f dr dr' entry h)

-- With a callback that, in a state where each task has an address of its own that has been given
-- out, takes back no tag, drops no task and leaves such a state, a resolution that starts in such a
-- state and returns DEP_RESOLVER_OK has resolved every tag of every task that it started with, and
-- has taken back none.
pub dep_resolver_resolve_ok :
    (f : ResolveFunc) (dr dr' : Resolver) (status : DepStatus)
    → IsHonest f
    → IsValid dr
    → Resolves f dr dr' status
    → status ≡ dep_ok
    → Grows dr dr' × ((e : Entry) → IsIn e dr.tasks → IsResolved dr' e)
dep_resolver_resolve_ok f _ _ _ honest valid (returns dr dr' status h) ok =
    let (none_left, same) = step_done f dr dr' dr.tasks (rw ok at h) in
    (subst (λ x. Grows dr x) same (λ i k set. set), (λ e he. absurd (rw none_left at he)))
dep_resolver_resolve_ok f _ _ _ honest valid (continues dr dr1 dr' status h rest) ok =
    let (grows, left, apart) = step-IsProgress f dr dr1 dr.tasks honest valid refl h in
    let (more, all) = dep_resolver_resolve_ok f dr1 dr' status honest apart rest ok in
    (
      (λ i k set. more i k (grows i k set)),
      (λ e he. elim (left e he) [
        | inl later ↦ all e later
        | inr now ↦ Grows-IsResolved dr1 dr' e more now
      ]),
    )
