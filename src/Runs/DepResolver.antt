-- ===== src/Runs/DepResolver.antt =====
-- Runs of the dependency resolver.
use bitpunch.Base.{
  ℕ, some, Bool, if◌then◌else◌, ◌==◌, ap, ◌≡◌, ◌↔◌, ◌<◌, refl, arith, [], ◌∷◌, true, false, inl,
  inr, none, ◌∙◌, sym, Bool-cases,
}
use bitpunch.Utils.TagSet.{union, inter, minus, is_empty, contains}
use bitpunch.Utils.DepResolver.{
  start_entry, DepStatus, dep_circular, dep_ok, Step, next, stop, Entry, Resolver, get_unresolved,
  ResolveFunc, resolve_step, step_at, Resolves, returns, continues, dep_resolver_schedule_tags,
}
use bitpunch.Utils.DepResolver.Cycle.{
  dep_resolver_create, dep_resolver_node_init, dep_resolver_get_circular_dependency,
}
use bitpunch.Utils.DepResolver.Report.{Avoids, AddsNew, schedule-Avoids, circular_report_misses}
use bitpunch.Utils.DepResolver.Resolved.{IsIn, Grows, IsResolved, AreDistinct, IsHonest}
use bitpunch.Utils.DepResolver.Progress.{dep_resolver_resolve_ok}
use bitpunch.Utils.DepResolver.Termination.{dep_resolver_resolve_returns}
use bitpunch.Utils.DepResolver.Schedule.{IsExtension, dep_resolver_schedule_tags-IsExtension}

-- A callback that resolves what it is asked for.
abbrev resolve_all : ResolveFunc
resolve_all dr node tags arg = (dr, tags)

-- One task, for two tags of node 7.
abbrev entry0 : Entry
entry0 = record {
  address = 0;
  node = 7;
  tags = true ∷ false ∷ true ∷ [];
  arg = 1;
  keep_arg_on_free = false;
}

abbrev one_task : Resolver
one_task = record {
  tasks = entry0 ∷ [];
  dep_chain = [];
  new_deps = true;
  circular_dep = false;
  error_flag = false;
  error_entry = none;
  frees_args = true;
  nodes = λ i. record { processing_tags = []; resolved_tags = [] };
  next_address = 1;
  freed = [];
}

one_task_distinct : AreDistinct one_task.tasks
one_task_distinct e f (inl h) (inl k) same = h ∙ sym k
one_task_distinct e f (inl h) (inr k) same = elim k [ ]
one_task_distinct e f (inr h) k same = elim h [ ]

abbrev resolver_of : Step → Resolver
resolver_of (next dr) = dr
resolver_of (stop dr status) = dr

one_task_below : (e : Entry) → IsIn e one_task.tasks → e.address < 1
one_task_below e (inl h) = omega (arith, ap (λ (x : Entry). x.address) h)
one_task_below e (inr h) = elim h [ ]

abbrev is_ok : DepStatus → Bool
is_ok dep_ok = true
is_ok status = false

-- A callback that has the first tag of node 8 resolved before any tag of another node.
abbrev behind_8 : ResolveFunc
behind_8 dr node tags arg =
    if node == 8
    then (dr, tags)
    else (let (dr', status) = dep_resolver_schedule_tags dr 8 (true ∷ []) [] arg in
        (dr', if is_ok status then tags else []))

behind_8-IsHonest : IsHonest behind_8
behind_8-IsHonest dr node tags arg valid = elim (Bool-cases (node == 8)) [
  | inl e ↦ rw e ((λ i k set. set), (λ e he. he), valid)
  | inr e ↦
      let ((valid', grows, kept), status) =
        dep_resolver_schedule_tags-IsExtension dr 8 (true ∷ []) [] arg valid in
      rw e (grows, kept, valid')
]

-- The round that schedules, the one for node 8, and the one that comes back.
abbrev scheduled_state : Resolver
scheduled_state = resolver_of (resolve_step behind_8 one_task)

abbrev resolved_8 : Resolver
resolved_8 = resolver_of (resolve_step behind_8 scheduled_state)

abbrev resolved_state : Resolver
resolved_state = resolver_of (resolve_step behind_8 resolved_8)

one_task-Resolves : Resolves behind_8 one_task resolved_state dep_ok
unfolding dep_resolver_schedule_tags step_at union minus is_empty contains inter
one_task-Resolves = continues one_task scheduled_state resolved_state dep_ok refl (
    continues scheduled_state resolved_8 resolved_state dep_ok refl (
      continues resolved_8 resolved_state resolved_state dep_ok refl
        (returns resolved_state resolved_state dep_ok refl)))

resolve_example :
    Grows one_task resolved_state
    × ((e : Entry) → IsIn e (entry0 ∷ []) → IsResolved resolved_state e)
resolve_example =
    dep_resolver_resolve_ok behind_8 one_task resolved_state dep_ok behind_8-IsHonest
      (one_task_distinct, one_task_below) one_task-Resolves refl

schedule_example :
    IsExtension one_task (dep_resolver_schedule_tags one_task 7 (false ∷ true ∷ []) (true ∷ []) 2).0
    × (((dep_resolver_schedule_tags one_task 7 (false ∷ true ∷ []) (true ∷ []) 2).1 ≡ dep_ok)
        ↔ (is_empty (get_unresolved (one_task.nodes 7) (false ∷ true ∷ [])) ≡ true))
schedule_example =
    dep_resolver_schedule_tags-IsExtension one_task 7 (false ∷ true ∷ []) (true ∷ []) 2
      (one_task_distinct, one_task_below)

returns_example : (dr : Resolver) × Resolves resolve_all one_task dr dep_ok
returns_example =
    dep_resolver_resolve_returns resolve_all one_task (entry0 ∷ []) (λ d node tags arg. refl) refl
      refl

-- Nodes 1 and 2 need each other's first tag.
abbrev each_other : ResolveFunc
each_other dr node tags arg =
    let (dr', status) =
      dep_resolver_schedule_tags dr (if node == 1 then 2 else 1) (true ∷ []) [] arg in
    (dr', if is_ok status then tags else [])

abbrev begun : Resolver
begun =
    (dep_resolver_schedule_tags (dep_resolver_create false (λ node. dep_resolver_node_init)) 1
      (true ∷ []) [] 0).0

abbrev suspended : Resolver
suspended = resolver_of (resolve_step each_other begun)

each_other-AddsNew : AddsNew each_other
each_other-AddsNew dr node tags arg a below avoids =
    schedule-Avoids dr (if node == 1 then 2 else 1) (true ∷ []) [] arg a below avoids

-- The entries for the two nodes, and the one that closes the cycle.
abbrev entry_for : ℕ → ℕ → Entry
entry_for address node = record {
  address = address;
  node = node;
  tags = true ∷ [];
  arg = 0;
  keep_arg_on_free = false;
}

abbrev stopped : Resolver
stopped = resolver_of (resolve_step each_other suspended)

suspended_tasks : suspended.tasks ≡ entry_for 1 2 ∷ entry_for 0 1 ∷ []
unfolding dep_resolver_schedule_tags step_at union minus is_empty contains inter
suspended_tasks = refl

suspended_below : 1 < suspended.next_address
unfolding dep_resolver_schedule_tags step_at union minus is_empty contains inter
suspended_below = omega arith

suspended_chain : Avoids 1 (start_entry suspended (entry_for 1 2)).dep_chain
unfolding start_entry dep_resolver_schedule_tags step_at union minus is_empty contains inter
suspended_chain = ((λ same. omega (arith, same)), tt)

suspended_stops : resolve_step each_other suspended ≡ stop stopped dep_circular
unfolding dep_resolver_schedule_tags step_at union minus is_empty contains inter
suspended_stops = refl

stopped_report : dep_resolver_get_circular_dependency stopped ≡ some (entry_for 2 1 ∷ [])
unfolding dep_resolver_schedule_tags step_at union minus is_empty contains inter
    dep_resolver_get_circular_dependency
stopped_report = refl

report_example : Avoids 1 (entry_for 2 1 ∷ [])
report_example =
    circular_report_misses each_other suspended stopped (entry_for 1 2) (entry_for 0 1 ∷ [])
      (entry_for 2 1 ∷ []) each_other-AddsNew suspended_below suspended_chain suspended_tasks
      suspended_stops stopped_report
