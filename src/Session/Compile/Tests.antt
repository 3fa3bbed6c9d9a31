-- ===== src/Session/Compile/Tests.antt =====
-- A small session for `compile`: a table that reads a declaration, in a project with a prefix and a suffix.
use dataform.Prelude.{◌≡◌, refl, String, List, [], ◌∷◌, none, ok, true}
use dataform.Stringified.Written.{key}
use dataform.Names.{target_to_name}
use dataform.Proto.{Target, ActionHermeticity}
use dataform.Proto.Core.{SessionConfig, TableOptions, undefined}
use dataform.Session.{ActionClass, SessionAction}
use dataform.Session.Compile.{SessionState, CompiledSession, Engine, compile}
use dataform.Session.Compile.Consistent.{IsConsistent, compile-IsConsistent}

abbrev engine : Engine
engine = record {
  normalize = λ s. s;
  upper = λ s. s;
  json = λ t. t.name;
  key = key;
  get_cycles = λ graph. [];
}

abbrev config : SessionConfig
config = record {
  warehouse = "bigquery";
  default_database = "";
  default_schema = "s";
  assertion_schema = "t";
  database_suffix = "";
  schema_suffix = "dev";
  table_prefix = "me";
  use_run_cache = true;
}

abbrev target : String → Target
target name = record { database = ""; schema = "s"; name = name }

abbrev no_options : TableOptions
no_options = record {
  unique_key = [];
  snowflake = none;
  sql_data_warehouse = none;
  redshift = none;
  bigquery = none;
  values = λ prop. undefined;
}

abbrev action_of : ActionClass → String → List Target → SessionAction
action_of class name dependencies = record {
  class = class;
  name = target_to_name (target name);
  target = target name;
  canonical_target = target name;
  file_name = "f.sqlx";
  type = "table";
  query = "";
  has_output = true;
  hermeticity = ActionHermeticity.hermetic;
  dependency_targets = dependencies;
  dependencies = [];
  parent_action = none;
  options = no_options;
  failure = none;
}

abbrev session : SessionState
session = record {
  actions =
      action_of ActionClass.declaration "source" []
      ∷ action_of ActionClass.table "orders" (target "source" ∷ [])
      ∷ [];
  tests = record { name = "t"; file_name = "t.sqlx"; failure = none } ∷ [];
  errors = [];
}

abbrev compiled : CompiledSession
compiled = record {
  tables =
      record (action_of ActionClass.table "orders" (target "source" ∷ [])) {
        target = record { database = ""; schema = "s_dev"; name = "me_orders" };
        name = "s_dev.me_orders";
        dependencies = "s.source" ∷ [];
      }
      ∷ [];
  operations = [];
  assertions = [];
  declarations = action_of ActionClass.declaration "source" [] ∷ [];
  tests = session.tests;
  errors = [];
  targets = target "source" ∷ target "orders" ∷ [];
}

session_compiles : compile engine config 2 session ≡ ok compiled
unfolding compile target_to_name
session_compiles = refl

compile-IsConsistent_example : IsConsistent engine config compiled
compile-IsConsistent_example =
    compile-IsConsistent engine config 2 session compiled session_compiles refl
