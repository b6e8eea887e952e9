-- ===== src/Utils/DepResolver/Report.antt =====
-- What the report of a circular dependency leaves out.
use mathlib.Core.Path.{subst}
use mathlib.Core.List.{reverse, reverse-append}
use bitpunch.Base.{
  ℕ, ◌<◌, ◌≡◌, ◌≢◌, ◌∙◌, sym, ap, inl, inr, arith, List, [], ◌∷◌, All, All-append, ◌==◌, some,
  Bool-cases,
}
use bitpunch.Utils.TagSet.{TagSet, is_empty}
use bitpunch.Utils.DepResolver.{
  dep_circular, Entry, Resolver, ResolveFunc, stop, set_processing, with_node, get_unresolved,
  schedule_last, schedule_first, dep_resolver_schedule_tags, start_entry, finish_entry,
  after_resolve, resolve_entry, step_at, resolve_step,
}
use bitpunch.Utils.DepResolver.Cycle.{report_of, entries_to, dep_resolver_get_circular_dependency}

-- None of the entries is at the address.
abbrev pub Avoids : ℕ → List Entry → Type 0
Avoids a = All (λ (e : Entry). e.address ≢ a)

-- What a callback adds to the chain is new.
abbrev pub AddsNew : ResolveFunc → Type 0
AddsNew f =
    (dr : Resolver) (node : ℕ) (tags : TagSet) (arg a : ℕ)
    → a < dr.next_address
    → Avoids a dr.dep_chain
    → Avoids a (f dr node tags arg).0.dep_chain

-- A callback that only schedules tags adds new entries.
pub schedule-Avoids :
    (dr : Resolver) (node : ℕ) (tags_pre tags_post : TagSet) (arg a : ℕ)
    → a < dr.next_address
    → Avoids a dr.dep_chain
    → Avoids a (dep_resolver_schedule_tags dr node tags_pre tags_post arg).0.dep_chain
unfolding dep_resolver_schedule_tags schedule_last schedule_first
schedule-Avoids dr node tags_pre tags_post arg a below avoids = ground arith

All-reverse : (P : Entry → Type 0) (xs : List Entry) → All P xs → All P (reverse xs)
All-reverse P [] h = tt
All-reverse P (x ∷ xs) (h, hs) =
    subst (All P) (sym (reverse-append (x ∷ []) xs))
      (All-append P (reverse xs) (x ∷ []) (All-reverse P xs hs) (h, tt))

entries_to-Avoids : (a node : ℕ) (es : List Entry) → Avoids a es → Avoids a (entries_to node es)
unfolding entries_to
entries_to-Avoids a node [] h = tt
entries_to-Avoids a node (e ∷ es) (h, hs) =
    let rest = entries_to-Avoids a node es hs in
    elim (Bool-cases (e.node == node)) [ inl same ↦ rw same tt | inr other ↦ rw other (h, rest) ]

report-Avoids :
    (a : ℕ) (chain report : List Entry)
    → Avoids a chain
    → report_of chain ≡ some report
    → Avoids a report
report-Avoids a [] report h e = cc
report-Avoids a (x ∷ chain) report (h, hs) e =
    let same : reverse (x ∷ entries_to x.node chain) ≡ report = cc in
    subst (Avoids a) same (
      All-reverse (λ (y : Entry). y.address ≢ a) (x ∷ entries_to x.node chain)
        (h, entries_to-Avoids a x.node chain hs))

-- A round that stops on a circular dependency leaves the chain as the callback did.
after-Avoids :
    (a : ℕ) (entry : Entry) (unresolved resolved : TagSet) (dr dr' : Resolver)
    → Avoids a dr.dep_chain
    → after_resolve entry unresolved (dr, resolved) ≡ stop dr' dep_circular
    → Avoids a dr'.dep_chain
unfolding after_resolve finish_entry
after-Avoids a entry unresolved resolved dr dr' avoids e =
    let same : dr.dep_chain ≡ dr'.dep_chain = ground arith in subst (Avoids a) same avoids

resolve-Avoids :
    (resolve_f : ResolveFunc) (dr dr' : Resolver) (entry : Entry) (a : ℕ)
    → AddsNew resolve_f
    → a < dr.next_address
    → Avoids a (start_entry dr entry).dep_chain
    → resolve_entry resolve_f dr entry ≡ stop dr' dep_circular
    → Avoids a dr'.dep_chain
unfolding resolve_entry start_entry finish_entry
resolve-Avoids resolve_f dr dr' entry a adds below avoids e =
    let dr1 = start_entry dr entry in
    let unresolved = get_unresolved (dr1.nodes entry.node) entry.tags in
    let dr2 = with_node dr1 entry.node (set_processing (dr1.nodes entry.node) unresolved) in
    let (dr3, resolved) = resolve_f dr2 entry.node unresolved entry.arg in
    elim (Bool-cases (is_empty unresolved)) [
      | inl none_left ↦ ground arith
      | inr some_left ↦
          after-Avoids a entry unresolved resolved dr3 dr'
            (adds dr2 entry.node unresolved entry.arg a below avoids) (rw some_left at e)
    ]

-- When a round of the resolution stops on a circular dependency, the entry that is resolved in it is
-- not in the report, although its callback has closed the cycle: for an entry in memory that is
-- nowhere behind the head of the chain, and a callback that adds only new entries to the chain.
pub circular_report_misses :
    (resolve_f : ResolveFunc) (dr dr' : Resolver) (entry : Entry) (entries report : List Entry)
    → AddsNew resolve_f
    → entry.address < dr.next_address
    → Avoids entry.address (start_entry dr entry).dep_chain
    → dr.tasks ≡ entry ∷ entries
    → resolve_step resolve_f dr ≡ stop dr' dep_circular
    → dep_resolver_get_circular_dependency dr' ≡ some report
    → Avoids entry.address report
unfolding dep_resolver_get_circular_dependency step_at
circular_report_misses resolve_f dr dr' entry entries report adds below avoids first stops e =
    report-Avoids entry.address dr'.dep_chain report
      (resolve-Avoids resolve_f dr dr' entry entry.address adds below avoids
        (ap (step_at resolve_f dr) (sym first) ∙ stops))
      e
