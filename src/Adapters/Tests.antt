-- ===== src/Adapters/Tests.antt =====
-- Small inputs for core/adapters and core/tasks.ts.
use Prim.Native.String
use dataform.Prelude.{◌≡◌, refl, String, true, false, [], ◌∷◌, Option, none, some, ok}
use dataform.Proto.{Target, TableKind}
use dataform.Proto.Core.{TableProto, AssertionProto, SessionConfig, ExistingTable}
use dataform.Adapters.{
  Semver, Adapter, statement_task, concatenate_queries, sql_string, row_conditions_assertion,
}
use dataform.Adapters.BigQuery
use dataform.Adapters.Redshift
use dataform.Adapters.Snowflake
use dataform.Adapters.SqlDataWarehouse
use dataform.Adapters.Registry.{create}
use dataform.Adapters.Quoting.{read_literal, read_escaped, read_doubled, read_literal-sql_string}
use dataform.Adapters.Assertions.{IsAssertionRun, assert_tasks-IsAssertionRun}
use dataform.Adapters.Published.{Publication, publish_tasks-Publication}

abbrev semver : Semver
semver = record { gt = λ a b. true; gte = λ a b. true; lte = λ a b. false }

abbrev upper : String → String
upper s = s

abbrev config : String → SessionConfig
config warehouse = record {
  warehouse = warehouse;
  default_database = "db";
  default_schema = "s";
  assertion_schema = "checks";
  database_suffix = "";
  schema_suffix = "";
  table_prefix = "";
  use_run_cache = false;
}

abbrev target : Target
target = record { database = ""; schema = "s"; name = "t" }

abbrev dataset : String → TableProto
dataset type = record {
  target = target;
  type = type;
  query = "select 1";
  incremental_query = "select 2";
  condition = "x > 1";
  unique_key = [];
  pre_ops = "begin;" ∷ [];
  post_ops = [];
  incremental_pre_ops = [];
  incremental_post_ops = "end" ∷ [];
  redshift = none;
  snowflake = none;
  bigquery = none;
  sql_data_warehouse = none;
  presto = none;
}

abbrev existing : TableKind → Option ExistingTable
existing kind = some (record { kind = kind; fields = "x" ∷ "y" ∷ [] })

abbrev check : AssertionProto
check = record { target = none; name = "a"; query = "select 3" }

concatenate_queries_test : concatenate_queries (" a ; " ∷ "" ∷ "b;;" ∷ []) (λ s. s) ≡ "a ;\nb;"
unfolding concatenate_queries
concatenate_queries_test = refl

replaced_view :
    BigQuery.publish_tasks
      (config "bigquery")
      semver
      "2.0.0"
      (dataset "view")
      false
      (existing TableKind.table)
    ≡ ok (
        statement_task
          "begin;\ndrop table if exists `db.s.t`;\ncreate or replace view `db.s.t` as select 1"
        ∷ [])
unfolding BigQuery.publish_tasks BigQuery.create_or_replace
replaced_view = refl

inserted_rows :
    Snowflake.publish_tasks semver "2.0.0" (dataset "incremental") false (existing TableKind.table)
    ≡ ok (
        statement_task
          "\t\ninsert into \"s\".\"t\"\t\n(x,y)\t\nselect x,y\t\nfrom (\n  select * from (select 2) as subquery\n    where x > 1) as insertions"
        ∷ statement_task "end"
        ∷ [])
unfolding Snowflake.publish_tasks
inserted_rows = refl

renamed_table :
    Redshift.publish_tasks (config "redshift") semver "2.0.0" (dataset "table") false none
    ≡ ok (
        statement_task "begin;"
        ∷ statement_task "drop table if exists \"s\".\"t_temp\""
        ∷ statement_task "create table \"s\".\"t_temp\" as select 1"
        ∷ statement_task "drop table if exists \"s\".\"t\""
        ∷ statement_task "alter table \"s\".\"t_temp\" rename to \"t\""
        ∷ [])
unfolding Redshift.publish_tasks Redshift.create_or_replace Redshift.replace_table
renamed_table = refl

row_conditions_test :
    row_conditions_assertion sql_string "d" ("a = 'b'" ∷ [])
    ≡ "\nSELECT\n  'a = \\'b\\'' AS failing_row_condition,\n  *\nFROM d\nWHERE NOT (a = 'b')\n"
unfolding row_conditions_assertion sql_string
row_conditions_test = refl

read_literal-sql_string_example :
    (read_literal read_escaped (String.◌++◌ (sql_string "it's \\ so") " AS c")
      ≡ some ("it's \\ so", " AS c"))
    × (read_literal read_doubled (String.◌++◌ (SqlDataWarehouse.quote "it's \\ so") " AS c")
        ≡ some ("it's \\ so", " AS c"))
read_literal-sql_string_example = read_literal-sql_string "it's \\ so" " AS c" refl

abbrev redshift : Adapter
redshift = Redshift.adapter (config "redshift") semver "2.0.0"

redshift_created : create upper semver (config "redshift") "2.0.0" ≡ ok redshift
unfolding create
redshift_created = refl

assert_tasks-IsAssertionRun_example : IsAssertionRun redshift (config "redshift") check
assert_tasks-IsAssertionRun_example =
    assert_tasks-IsAssertionRun upper semver (config "redshift") "2.0.0" redshift
      (config "redshift") check redshift_created

publish_tasks-Publication_example :
    Publication "redshift" "incremental"
      (redshift.publish_tasks (dataset "incremental") false (existing TableKind.table))
publish_tasks-Publication_example =
    publish_tasks-Publication upper semver (config "redshift") "2.0.0" redshift
      (dataset "incremental") false (existing TableKind.table) redshift_created
