-- ===== src/Prune/Tests.antt =====
-- Small inputs for api/commands/prune.ts.
use dataform.Prelude.{◌≡◌, ◌||◌, refl, Bool, true, false, List, [], ◌∷◌, some, String, ok}
use dataform.Proto.{Target, Table, Operation, Assertion, CompiledGraph, RunConfig}
use dataform.Names.{match_patterns, target_to_name}
use dataform.Prune.{has_action_selector, has_tag_selector, compute_included_action_names, prune}
use dataform.Prune.Kept.{IsPruning, prune-IsPruning}
use dataform.Prune.Outcome.{IsSafe, prune-IsSafe}

abbrev target : String → Target
target name = record { database = ""; schema = "s"; name = name }

abbrev table_a : Table
table_a = record {
  target = target "a";
  name = "s.a";
  type = "table";
  tags = "daily" ∷ [];
  dependencies = [];
  dependency_targets = [];
}

abbrev table_b : Table
table_b = record {
  target = target "b";
  name = "s.b";
  type = "view";
  tags = [];
  dependencies = "s.a" ∷ [];
  dependency_targets = target "a" ∷ [];
}

abbrev table_c : Table
table_c = record {
  target = target "c";
  name = "s.c";
  type = "inline";
  tags = [];
  dependencies = "s.b" ∷ [];
  dependency_targets = target "b" ∷ [];
}

abbrev operation_d : Operation
operation_d = record {
  target = target "d";
  name = "s.d";
  tags = [];
  dependencies = "s.b" ∷ [];
  dependency_targets = target "b" ∷ [];
  queries = "select 1" ∷ [];
  disabled = false;
}

abbrev assertion_e : Assertion
assertion_e = record {
  target = target "e";
  name = "s.e";
  tags = [];
  dependencies = "s.a" ∷ [];
  dependency_targets = target "a" ∷ [];
  parent_action = some (target "a");
}

abbrev graph : CompiledGraph
graph = record {
  tables = table_a ∷ table_b ∷ table_c ∷ [];
  operations = operation_d ∷ [];
  assertions = assertion_e ∷ [];
  declarations = [];
  dataform_core_version = "1.6.11";
}

abbrev config : List String → List String → Bool → Bool → RunConfig
config actions tags above below = record {
  actions = actions;
  tags = tags;
  include_dependencies = above;
  include_dependents = below;
}

runs :
    (compute_included_action_names graph (config ("d" ∷ []) [] true false)
      ≡ ok ("s.d" ∷ "s.b" ∷ "s.a" ∷ "s.e" ∷ []))
    × (compute_included_action_names graph (config [] ("daily" ∷ []) false true)
        ≡ ok ("s.a" ∷ "s.b" ∷ "s.e" ∷ "s.d" ∷ []))
    × (compute_included_action_names graph (config ("d" ∷ []) [] false false) ≡ ok ("s.d" ∷ []))
unfolding compute_included_action_names match_patterns target_to_name
runs = (refl, refl, refl)

abbrev pruned : CompiledGraph
pruned = record {
  tables = table_a ∷ table_b ∷ [];
  operations = operation_d ∷ [];
  assertions = assertion_e ∷ [];
  declarations = [];
  dataform_core_version = "1.6.11";
}

selects :
    has_action_selector (config ("d" ∷ []) [] true false)
      || has_tag_selector (config ("d" ∷ []) [] true false)
    ≡ true
selects = refl

prunes : prune graph (config ("d" ∷ []) [] true false) ≡ ok pruned
unfolding prune compute_included_action_names match_patterns target_to_name
prunes = refl

prune-IsPruning_example : IsPruning graph (config ("d" ∷ []) [] true false) pruned
prune-IsPruning_example =
    prune-IsPruning graph (config ("d" ∷ []) [] true false) pruned selects prunes

prune-IsSafe_example : IsSafe (prune graph (config ("a" ∷ "b" ∷ []) [] true true))
prune-IsSafe_example = prune-IsSafe graph (config ("a" ∷ "b" ∷ []) [] true true)
