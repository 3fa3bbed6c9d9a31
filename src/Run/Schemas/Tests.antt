-- ===== src/Run/Schemas/Tests.antt =====
-- Small inputs for the creation of schemas.
use dataform.Prelude.{
  ◌≡◌, ◌↔◌, refl, String, false, ◌==◌, List, [], ◌∷◌, if◌then◌else◌, includes, Elem,
}
use dataform.Proto.{ActionHermeticity, ExecutionAction, ExecutionGraph}
use dataform.Run.Schemas.{prepare_all_schemas}
use dataform.Run.Schemas.Laws.{IsUsed, prepare_all_schemas_iff}

abbrev action : String → String → ExecutionAction
action database schema = record {
  name = "a";
  target = record { database = database; schema = schema; name = "a" };
  type = "table";
  table_type = "table";
  dependencies = [];
  transitive_inputs = [];
  hermeticity = ActionHermeticity.hermetic;
  tasks = [];
  has_descriptor = false;
}

abbrev graph : ExecutionGraph
graph = record {
  project_config = record {
    warehouse = "bigquery";
    default_database = "main";
    idempotent_action_retries = 0;
    use_run_cache = false;
  };
  use_run_cache = false;
  disable_set_metadata = false;
  tables = [];
  declaration_targets = [];
  actions = action "" "s1" ∷ action "other" "s1" ∷ action "main" "s2" ∷ action "" "s2" ∷ [];
}

abbrev existing : String → List String
existing database = if database == "main" then "s1" ∷ [] else []

created : prepare_all_schemas existing graph ≡ ("main", "s2") ∷ ("other", "s1") ∷ []
unfolding prepare_all_schemas
created = refl

prepare_all_schemas_iff_example :
    Elem {A = String × String} ("main", "s2") (prepare_all_schemas existing graph) ↔ (
      IsUsed graph.project_config.default_database graph.actions "main" "s2"
      × (includes (existing "main") "s2" ≡ false))
prepare_all_schemas_iff_example = prepare_all_schemas_iff existing graph "main" "s2"
