-- ===== src/Session/Altering/Tests.antt =====
-- Small inputs for `alterActionName`: an action that reads a declaration, one that reads the first.
use dataform.Prelude.{
  ◌≡◌, refl, String, List, [], ◌∷◌, map, none, here, ok, throw, undefined_access, includes, false,
  true, ◌||◌,
}
use dataform.Stringified.Written.{key, key-IsFaithful}
use dataform.Names.{target_to_name}
use dataform.Proto.{Target, ActionHermeticity}
use dataform.Proto.Core.{SessionConfig, TableOptions, undefined}
use dataform.Session.{ActionClass, SessionAction}
use dataform.Session.Altering.{alter_action_name}
use dataform.Session.Altering.Renaming.{
  renamed_action, RefersToKnown, is_among, alter_action_name-renames, alter_action_name-throws,
}

abbrev normalize : String → String
normalize s = s

abbrev config : SessionConfig
config = record {
  warehouse = "bigquery";
  default_database = "";
  default_schema = "s";
  assertion_schema = "t";
  database_suffix = "";
  schema_suffix = "dev";
  table_prefix = "me";
  use_run_cache = false;
}

abbrev target : String → Target
target name = record { database = ""; schema = "s"; name = name }

abbrev no_options : TableOptions
no_options = record {
  unique_key = [];
  snowflake = none;
  sql_data_warehouse = none;
  redshift = none;
  bigquery = none;
  values = λ prop. undefined;
}

abbrev table_of : String → List Target → SessionAction
table_of name dependencies = record {
  class = ActionClass.table;
  name = name;
  target = target name;
  canonical_target = target name;
  file_name = "f.sqlx";
  type = "table";
  query = "";
  has_output = true;
  hermeticity = ActionHermeticity.hermetic;
  dependency_targets = dependencies;
  dependencies = [];
  parent_action = none;
  options = no_options;
  failure = none;
}

abbrev a : SessionAction
a = table_of "a" (target "d" ∷ [])

abbrev b : SessionAction
b = table_of "b" (target "a" ∷ [])

abbrev actions : List SessionAction
actions = a ∷ b ∷ []

abbrev declarations : List Target
declarations = target "d" ∷ []

altered_names :
    alter_action_name key normalize config (table_of "b" [] ∷ []) []
    ≡ ok (
        record (table_of "b" []) {
          target = record { database = ""; schema = "s_dev"; name = "me_b" };
          name = "s_dev.me_b";
        }
        ∷ [])
unfolding alter_action_name target_to_name
altered_names = refl

a_known :
    RefersToKnown key key-IsFaithful normalize config (map (λ c. c.target) actions) declarations a
unfolding includes
a_known = record { dependencies_known = (refl, tt); parent_known = tt }

b_known :
    RefersToKnown key key-IsFaithful normalize config (map (λ c. c.target) actions) declarations b
unfolding includes
b_known = record { dependencies_known = (refl, tt); parent_known = tt }

alter_action_name-renames_example :
    alter_action_name key normalize config actions declarations
    ≡ ok (
        map
          (renamed_action key key-IsFaithful normalize config (map (λ c. c.target) actions))
          actions)
alter_action_name-renames_example =
    alter_action_name-renames key key-IsFaithful normalize config actions declarations refl
      (a_known, (b_known, tt))

-- The declaration is missing, as it is when its compilation failed.
d_unknown :
    (is_among key key-IsFaithful (map (λ c. c.target) actions) (target "d")
      || is_among key key-IsFaithful [] (target "d"))
    ≡ false
unfolding includes
d_unknown = refl

alter_action_name-throws_example :
    alter_action_name key normalize config actions [] ≡ throw undefined_access
alter_action_name-throws_example =
    alter_action_name-throws key key-IsFaithful normalize config actions [] a (target "d") refl
      (here refl) (here refl) d_unknown
