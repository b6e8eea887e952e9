-- ===== src/Utils/DepResolver/Cycle.antt =====
-- libbitpunch/src/utils/dep_resolver.c: the report of a circular dependency, and what else callers
-- read and write.
use mathlib.Core.List.{reverse}
use bitpunch.Base.{ℕ, false, List, [], ◌∷◌, ◌==◌, if◌then◌else◌, Bool, Option, none, some}
use bitpunch.Utils.TagSet.{TagSet}
use bitpunch.Utils.DepResolver.{Entry, NodeTags, Resolver, set_resolved}

abbrev pub dep_resolver_node_init : NodeTags
dep_resolver_node_init = record { processing_tags = []; resolved_tags = [] }

-- `frees_args` tells whether there is a free_arg_f(). Addresses are handed out from 0 on.
abbrev pub dep_resolver_create : Bool → (ℕ → NodeTags) → Resolver
dep_resolver_create frees_args nodes = record {
  tasks = [];
  dep_chain = [];
  new_deps = false;
  circular_dep = false;
  error_flag = false;
  error_entry = none;
  frees_args = frees_args;
  nodes = nodes;
  next_address = 0;
  freed = [];
}

abbrev pub dep_resolver_set_resolved : NodeTags → TagSet → NodeTags
dep_resolver_set_resolved = set_resolved

abbrev pub dep_resolver_get_error_entry : Resolver → Option Entry
dep_resolver_get_error_entry dr = dr.error_entry

-- The entries of the chain before one for the node. No entry is in the chain twice.
unfoldable pub entries_to : ℕ → List Entry → List Entry
entries_to node [] = []
entries_to node (entry ∷ entries) =
    let rest = entries_to node entries in if entry.node == node then [] else entry ∷ rest

-- `none` where the chain is empty, and the source writes through a null pointer.
abbrev pub report_of : List Entry → Option (List Entry)
report_of [] = none
report_of (entry ∷ entries) = some (reverse (entry ∷ entries_to entry.node entries))

unfoldable pub dep_resolver_get_circular_dependency : Resolver → Option (List Entry)
unfolding entries_to
dep_resolver_get_circular_dependency dr = report_of dr.dep_chain
