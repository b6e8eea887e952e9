-- ===== src/Utils/DepResolver.antt =====
-- libbitpunch/src/utils/dep_resolver.c: the resolution of tags on nodes that depend on each other.
pub mod Resolved
pub mod Progress
pub mod Schedule
pub mod Termination
pub mod Cycle
pub mod Report
use bitpunch.Base.{
  ℕ, suc, ◌+◌, List, [], ◌∷◌, ◌++◌, Bool, true, false, not, ◌&&◌, ◌||◌, ◌==◌, if◌then◌else◌, Option,
  none, some, ◌≡◌,
}
use bitpunch.Utils.TagSet.{TagSet, union, inter, minus, is_empty, contains}

pub data DepStatus : Type 0 where
  dep_ok dep_error dep_again dep_circular : DepStatus

-- `struct dep_resolver_node`
pub record NodeTags : Type 0 where
  pub processing_tags : TagSet
  pub resolved_tags : TagSet

-- `struct dep_resolver_node_entry`, with its address. A node and an argument are references.
pub record Entry : Type 0 where
  pub address : ℕ
  pub node : ℕ
  pub tags : TagSet
  pub arg : ℕ
  pub keep_arg_on_free : Bool

-- `struct dep_resolver`, with the flags one by one; the nodes; the next address that new_entry() is
-- given; and the arguments that free_arg_f() has been called on, the last one first.
pub record Resolver : Type 0 where
  pub tasks : List Entry
  pub dep_chain : List Entry
  pub new_deps : Bool
  pub circular_dep : Bool
  pub error_flag : Bool
  pub error_entry : Option Entry
  pub frees_args : Bool
  pub nodes : ℕ → NodeTags
  pub next_address : ℕ
  pub freed : List ℕ

abbrev pub set_processing : NodeTags → TagSet → NodeTags
set_processing n tags = record {
  processing_tags = union n.processing_tags tags;
  resolved_tags = n.resolved_tags;
}

abbrev pub clear_processing : NodeTags → TagSet → NodeTags
clear_processing n tags = record {
  processing_tags = minus n.processing_tags tags;
  resolved_tags = n.resolved_tags;
}

abbrev pub any_is_processing : NodeTags → TagSet → Bool
any_is_processing n tags = not (is_empty (inter n.processing_tags tags))

abbrev pub set_resolved : NodeTags → TagSet → NodeTags
set_resolved n tags = record {
  processing_tags = n.processing_tags;
  resolved_tags = union n.resolved_tags tags;
}

abbrev pub get_unresolved : NodeTags → TagSet → TagSet
get_unresolved n tags = minus tags n.resolved_tags

-- A write to one node.
abbrev pub update : (ℕ → NodeTags) → ℕ → NodeTags → ℕ → NodeTags
update nodes i n j = if j == i then n else nodes j

abbrev pub with_node : Resolver → ℕ → NodeTags → Resolver
with_node dr i n = record dr { nodes = update dr.nodes i n }

-- Calls free_arg_f(), where there is one and `wanted` holds.
abbrev pub free_arg : Resolver → Bool → ℕ → Resolver
free_arg dr wanted arg = record dr {
  freed = if dr.frees_args && wanted then arg ∷ dr.freed else dr.freed;
}

-- new_entry()
abbrev pub new_entry : Resolver → ℕ → TagSet → ℕ → Bool → Entry
new_entry dr node tags arg keep = record {
  address = dr.next_address;
  node = node;
  tags = tags;
  arg = arg;
  keep_arg_on_free = keep;
}

-- The task for the tags that may wait, at the end of the list.
unfoldable pub schedule_last : Resolver → ℕ → TagSet → ℕ → Resolver
schedule_last dr node unresolved arg = if is_empty unresolved then dr else record dr {
  tasks = dr.tasks ++ (new_entry dr node unresolved arg false ∷ []);
  next_address = dr.next_address + 1;
}

-- The task for the tags that are needed now, at the head of the list.
unfoldable pub schedule_first : Resolver → ℕ → TagSet → ℕ → Bool → Resolver
schedule_first dr node unresolved arg keep =
    let entry = new_entry dr node unresolved arg keep in
    let circular = any_is_processing (dr.nodes node) unresolved in
    record dr {
      tasks = entry ∷ dr.tasks;
      next_address = dr.next_address + 1;
      new_deps = true;
      circular_dep = dr.circular_dep || circular;
      dep_chain = if circular then entry ∷ dr.dep_chain else dr.dep_chain;
    }

unfoldable pub dep_resolver_schedule_tags :
    Resolver → ℕ → TagSet → TagSet → ℕ → Resolver × DepStatus
unfolding schedule_last schedule_first
dep_resolver_schedule_tags dr node tags_pre tags_post arg =
    let unresolved_last = get_unresolved (dr.nodes node) tags_post in
    let unresolved_first = get_unresolved (dr.nodes node) tags_pre in
    let dr1 = schedule_last dr node unresolved_last arg in
    let dr2 = schedule_first dr1 node unresolved_first arg (not (is_empty unresolved_last)) in
    if is_empty unresolved_first
    then (free_arg dr1 (is_empty unresolved_last) arg, dep_ok)
    else (dr2, if dr2.circular_dep then dep_circular else dep_again)

unfoldable pub dep_resolver_get_status : Resolver → DepStatus
dep_resolver_get_status dr =
    if dr.error_flag
    then dep_error
    else if dr.circular_dep
    then dep_circular
    else if dr.new_deps
    then dep_again
    else dep_ok

-- The callback: it is given the node, the tags to resolve and the argument, may schedule tags, and
-- returns the tags that it has resolved.
abbrev pub ResolveFunc : Type 0
ResolveFunc = Resolver → ℕ → TagSet → ℕ → Resolver × TagSet

-- One round of the loop, or the return.
pub data Step : Type 0 where
  next : Resolver → Step
  stop : Resolver → DepStatus → Step

abbrev pub is_first : Entry → List Entry → Bool
is_first entry [] = false
is_first entry (e ∷ entries) = e.address == entry.address

abbrev pub tail : List Entry → List Entry
tail [] = []
tail (e ∷ entries) = entries

-- The end of a round, where the entry is the first of the tasks.
unfoldable pub finish_entry : Resolver → Entry → Step
finish_entry dr entry =
    next (free_arg (record dr { tasks = tail dr.tasks }) (not entry.keep_arg_on_free) entry.arg)

-- The start of a round.
unfoldable pub start_entry : Resolver → Entry → Resolver
start_entry dr entry = record dr {
  new_deps = false;
  dep_chain = if is_first entry dr.dep_chain then tail dr.dep_chain else dr.dep_chain;
}

-- What follows the callback.
unfoldable pub after_resolve : Entry → TagSet → Resolver × TagSet → Step
unfolding finish_entry
after_resolve entry unresolved (dr, resolved) =
    let node = set_resolved (clear_processing (dr.nodes entry.node) resolved) resolved in
    let dr' = with_node dr entry.node node in
    if dr'.circular_dep
    then stop dr' dep_circular
    else if not (is_first entry dr'.tasks)
    then next (record dr' { dep_chain = entry ∷ dr'.dep_chain })
    else if not (contains resolved unresolved)
    then stop (record dr' { error_entry = some entry; error_flag = true }) dep_error
    else finish_entry dr' entry

unfoldable pub resolve_entry : ResolveFunc → Resolver → Entry → Step
unfolding start_entry after_resolve finish_entry
resolve_entry resolve_f dr entry =
    let dr1 = start_entry dr entry in
    let unresolved = get_unresolved (dr1.nodes entry.node) entry.tags in
    let dr2 = with_node dr1 entry.node (set_processing (dr1.nodes entry.node) unresolved) in
    if is_empty unresolved
    then finish_entry dr1 entry
    else after_resolve entry unresolved (resolve_f dr2 entry.node unresolved entry.arg)

-- `while (!TAILQ_EMPTY(&dr->tasks))`, with the tasks as the second argument.
unfoldable pub step_at : ResolveFunc → Resolver → List Entry → Step
unfolding resolve_entry
step_at resolve_f dr [] = stop dr dep_ok
step_at resolve_f dr (entry ∷ entries) = resolve_entry resolve_f dr entry

abbrev pub resolve_step : ResolveFunc → Resolver → Step
resolve_step resolve_f dr = step_at resolve_f dr dr.tasks

-- dep_resolver_resolve() goes from one state to another and returns a status.
pub data Resolves (resolve_f : ResolveFunc) : Resolver → Resolver → DepStatus → Type 0 where
  returns :
      (dr dr' : Resolver) (status : DepStatus)
      → resolve_step resolve_f dr ≡ stop dr' status
      → Resolves resolve_f dr dr' status
  continues :
      (dr dr1 dr' : Resolver) (status : DepStatus)
      → resolve_step resolve_f dr ≡ next dr1
      → Resolves resolve_f dr1 dr' status
      → Resolves resolve_f dr dr' status
