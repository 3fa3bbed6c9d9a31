-- ===== src/Run/Cache/Tests.antt =====
-- Small inputs for the cache.
use dataform.Prelude.{◌≡◌, ◌↔◌, refl, String, true, false, [], ◌∷◌, some}
use dataform.Names.{target_to_name}
use dataform.Proto.{
  Target, ActionStatus, TableKind, ActionHermeticity, TableMetadata, ExecutionAction,
  ExecutionGraph,
}
use dataform.Run.State.{ExecutedAction, Encodings, Runner, create}
use dataform.Run.Cache.{should_cache_skip}
use dataform.Run.Cache.Sound.{IsCacheHit, should_cache_skip_iff}

abbrev target : String → Target
target name = record { database = ""; schema = "s"; name = name }

abbrev env : Encodings
env = record {
  target_key = record { stringify = target_to_name; parse = λ n. target n };
  encode = λ a. a.name;
}

abbrev action : ExecutionAction
action = record {
  name = "s.b";
  target = target "b";
  type = "table";
  table_type = "table";
  dependencies = [];
  transitive_inputs = target "a" ∷ [];
  hermeticity = ActionHermeticity.hermetic;
  tasks = record { type = "statement"; statement = "select 1" } ∷ [];
  has_descriptor = false;
}

abbrev metadata : String → TableMetadata
metadata name = record {
  target = target name;
  kind = TableKind.table;
  last_updated_millis = 7;
  has_streaming_buffer = false;
}

abbrev graph : ExecutionGraph
graph = record {
  project_config = record {
    warehouse = "bigquery";
    default_database = "db";
    idempotent_action_retries = 0;
    use_run_cache = true;
  };
  use_run_cache = true;
  disable_set_metadata = false;
  tables = metadata "a" ∷ metadata "b" ∷ [];
  declaration_targets = target "a" ∷ [];
  actions = action ∷ [];
}

abbrev previous : ExecutedAction
previous = record {
  execution_action = action;
  action_result = record {
    name = "s.b";
    target = target "b";
    status = ActionStatus.successful;
    tasks = [];
    post_execution_millis = 7;
    inputs = record { target = target "a"; last_modified_millis = some 7 } ∷ [];
  };
}

abbrev runner : Runner
runner = create env graph [] (previous ∷ [])

hit : should_cache_skip env graph runner action ≡ true
unfolding should_cache_skip create target_to_name
hit = refl

should_cache_skip_iff_example :
    (should_cache_skip env graph runner action ≡ true) ↔ IsCacheHit env runner graph action
should_cache_skip_iff_example = should_cache_skip_iff env graph runner action
