-- ===== src/Session/Tests.antt =====
-- Small inputs for core/session.ts.
use dataform.Prelude.{
  ◌≡◌, ◌↔◌, refl, String, true, false, List, [], ◌∷◌, none, some, All, ok, out_of_fuel, arith,
}
use dataform.Proto.{Target, ActionHermeticity}
use dataform.Proto.Core.{TableOptions, undefined}
use dataform.Session.{ActionClass, SessionAction}
use dataform.Session.Linking.{
  Linked, find_from, get_elem?, qualify_one, with_dependencies, fully_qualify_dependencies,
}
use dataform.Session.Linking.Sound.{IsQualified, qualify_one-IsQualified}
use dataform.Session.Linking.Ending.{IsPlain, qualify_one_hangs, fully_qualify_dependencies_ends}
use dataform.Session.Tables.{tests_hash}
use dataform.Session.Sqlx.{SqlxAction, sqlx_messages}
use dataform.Session.Sqlx.Rules.{IsAllowed, sqlx_messages_iff}

abbrev normalize : String → String
normalize s = s

abbrev json : Target → String
json t = t.name

abbrev target : String → Target
target name = record { database = ""; schema = "s"; name = name }

abbrev named : String → Target
named name = record { database = ""; schema = ""; name = name }

abbrev no_options : TableOptions
no_options = record {
  unique_key = [];
  snowflake = none;
  sql_data_warehouse = none;
  redshift = none;
  bigquery = none;
  values = λ prop. undefined;
}

abbrev action : ActionClass → String → String → List Target → SessionAction
action class type name dependencies = record {
  class = class;
  name = name;
  target = target name;
  canonical_target = target name;
  file_name = "f.sqlx";
  type = type;
  query = "";
  has_output = true;
  hermeticity = ActionHermeticity.hermetic;
  dependency_targets = dependencies;
  dependencies = [];
  parent_action = none;
  options = no_options;
  failure = none;
}

abbrev source : SessionAction
source = action ActionClass.declaration "" "source" []

abbrev orders : SessionAction
orders = action ActionClass.table "table" "orders" (named "source" ∷ [])

abbrev report : SessionAction
report = action ActionClass.table "view" "report" (named "orders" ∷ named "source" ∷ [])

abbrev actions : List SessionAction
actions = source ∷ orders ∷ report ∷ []

abbrev linked_report : SessionAction
linked_report =
    with_dependencies (("orders", target "orders") ∷ ("source", target "source") ∷ []) report

linked : qualify_one normalize json 3 2 actions [] ≡ ok (source ∷ orders ∷ linked_report ∷ [], [])
unfolding qualify_one
linked = refl

report_found : get_elem? actions 2 ≡ some report
unfolding get_elem?
report_found = refl

qualify_one-IsQualified_example :
    IsQualified normalize actions 2 report [] (source ∷ orders ∷ linked_report ∷ [], [])
qualify_one-IsQualified_example =
    qualify_one-IsQualified normalize json 3 2 actions [] report
      (source ∷ orders ∷ linked_report ∷ [], []) report_found linked

plain : All (IsPlain 3) actions
plain = ((refl, omega arith), ((refl, omega arith), ((refl, omega arith), tt)))

fully_qualify_dependencies_ends_example :
    (out : Linked) × (fully_qualify_dependencies normalize json 3 actions [] ≡ ok out)
fully_qualify_dependencies_ends_example =
    fully_qualify_dependencies_ends normalize json 3 actions [] plain

abbrev snake : SessionAction
snake = action ActionClass.table "inline" "snake" (named "snake" ∷ [])

snake_found : get_elem? (snake ∷ []) 0 ≡ some snake
unfolding get_elem?
snake_found = refl

snake_only : find_from normalize 0 (named "snake") (snake ∷ []) ≡ (0, snake) ∷ []
unfolding find_from
snake_only = refl

qualify_one_hangs_example : qualify_one normalize json 9 0 (snake ∷ []) [] ≡ out_of_fuel
qualify_one_hangs_example =
    qualify_one_hangs normalize json 9 0 (snake ∷ []) [] snake (named "snake") snake_found refl refl
      snake_only

hash_tests :
    (tests_hash "DISTRIBUTION = HASH ( customer_id )" ≡ true) × (tests_hash "HASH(a, b)" ≡ false)
unfolding tests_hash
hash_tests = (refl, refl)

abbrev sqlx : SqlxAction
sqlx = record {
  type = "table";
  properties = "name" ∷ "sqldatawarehouse" ∷ [];
  sql_statement_count = 1;
  has_incremental_where = false;
  input_count = 0;
  has_pre_operations = true;
  has_post_operations = false;
}

sqlx_messages_test :
    sqlx_messages "sqldatawarehouse" sqlx
    ≡ "Actions may only specify 'database' in projects whose warehouse is 'BigQuery' or 'Snowflake'."
      ∷ []
unfolding sqlx_messages
sqlx_messages_test = refl

sqlx_messages_iff_example :
    (sqlx_messages "sqldatawarehouse" sqlx ≡ []) ↔ IsAllowed "sqldatawarehouse" sqlx
sqlx_messages_iff_example = sqlx_messages_iff "sqldatawarehouse" sqlx
