-- ===== src/Adapters.antt =====
-- core/tasks.ts and core/adapters/base.ts: lists of tasks, and what the adapters of all warehouses
-- share. `semver` and the engine's `toUpperCase` are parameters.
pub mod BigQuery
pub mod Presto
pub mod Redshift
pub mod Snowflake
pub mod SqlDataWarehouse
pub mod Registry
pub mod Quoting
pub mod Writing
pub mod Published
pub mod Assertions
mod Tests
use Prim.Native.Char.{Char, code}
use Prim.Native.String
use dataform.Prelude.{
  ℕ, String, Bool, true, false, not, ◌&&◌, ◌||◌, ◌==◌, List, [], ◌∷◌, map, Option, none, some,
  if◌then◌else◌, nat_eq, filter, Result, ok, throw, error, ◌>>=◌,
}
use dataform.Prelude.Text.{template, join, trim, ends_with_code, without_last}
use dataform.Names.{truthy}
use dataform.Proto.{Target, TableKind, ExecutionTask}
use dataform.Proto.Core.{TableProto, AssertionProto, SessionConfig, ExistingTable}

-- The comparisons of `semver` that the adapters call.
pub record Semver : Type 0 where
  pub gt : String → String → Bool
  pub gte : String → String → Bool
  pub lte : String → String → Bool

-- core/tasks.ts

-- `Task.statement` and `Task.assertion`
abbrev pub statement_task : String → ExecutionTask
statement_task s = record { type = "statement"; statement = s }

abbrev pub assertion_task : String → ExecutionTask
assertion_task s = record { type = "assertion"; statement = s }

-- What `concatenateQueries` takes off the end of a trimmed statement.
unfoldable pub without_semicolon : String → String
unfolding ends_with_code without_last
without_semicolon s = if ends_with_code b';' s then without_last s else s

-- `concatenateQueries`; without a modifier, `modify` is the identity.
unfoldable pub concatenate_queries : List String → (String → String) → String
unfolding without_semicolon trim join
concatenate_queries statements modify =
    join ";\n" (map (λ s. modify (without_semicolon (trim s))) (filter truthy statements))

-- `Tasks.concatenate`
unfoldable pub concatenate : List ExecutionTask → List ExecutionTask
unfolding concatenate_queries
concatenate tasks =
    statement_task (concatenate_queries (map (λ t. t.statement) tasks) (λ s. s)) ∷ []

-- core/adapters/base.ts

abbrev pub same_kind : TableKind → TableKind → Bool
same_kind TableKind.unknown TableKind.unknown = true
same_kind TableKind.table TableKind.table = true
same_kind TableKind.view TableKind.view = true
same_kind _ _ = false

unfoldable pub base_table_type : String → Result TableKind
unfolding template
base_table_type type =
    if type == "table" || type == "incremental"
    then ok TableKind.table
    else if type == "view"
    then ok TableKind.view
    else throw (error (template ("Unexpected table type: " ∷ type ∷ [])))

unfoldable pub table_type_as_sql : TableKind → Result String
table_type_as_sql TableKind.table = ok "table"
table_type_as_sql TableKind.view = ok "view"
table_type_as_sql TableKind.unknown = throw (error "Unexpected table type: 0")

unfoldable pub opposite_table_type : TableKind → Result TableKind
opposite_table_type TableKind.table = ok TableKind.view
opposite_table_type TableKind.view = ok TableKind.table
opposite_table_type TableKind.unknown = throw (error "Unexpected table type: 0")

-- `s.replace(/c/g, "ec")`: a character put before every one of a code.
unfoldable pub escape_with : Char → ℕ → String → String
escape_with escape n String.[] = ""
escape_with escape n (String.◌∷◌ c s) =
    let rest = String.◌∷◌ c (escape_with escape n s) in
    if nat_eq (code c) n then String.◌∷◌ escape rest else rest

-- `sqlString`
unfoldable pub sql_string : String → String
unfolding escape_with template
sql_string s = template ("'" ∷ escape_with "\\" b'\'' (escape_with "\\" b'\\' s) ∷ "'" ∷ [])

unfoldable pub index_assertion : String → List String → String
unfolding template join
index_assertion dataset index_cols =
    let columns = join ", " index_cols in
    template (
      "\nSELECT\n  *\nFROM (\n  SELECT\n    " ∷ columns
      ∷ ",\n    COUNT(1) AS index_row_count\n  FROM " ∷ dataset ∷ "\n  GROUP BY " ∷ columns
      ∷ "\n  ) AS data\nWHERE index_row_count > 1\n" ∷ [])

-- `rowConditionsAssertion`, with the adapter's `sqlString`.
unfoldable pub row_conditions_assertion : (String → String) → String → List String → String
unfolding template join
row_conditions_assertion quote dataset conditions = join "UNION ALL" (
    map
      (λ condition. template (
        "\nSELECT\n  "
        ∷ quote condition
        ∷ " AS failing_row_condition,\n  *\nFROM "
        ∷ dataset
        ∷ "\nWHERE NOT ("
        ∷ condition
        ∷ ")\n"
        ∷ []))
      conditions)

-- `where`
unfoldable pub restrict : String → String → String
unfolding template
restrict query condition =
    if truthy condition
    then template ("\n  select * from (" ∷ query ∷ ") as subquery\n    where " ∷ condition ∷ [])
    else query

-- `shouldWriteIncrementally`
unfoldable pub should_write_incrementally : Bool → Option ExistingTable → Bool
should_write_incrementally full_refresh none = false
should_write_incrementally full_refresh (some e) =
    not full_refresh && not (same_kind e.kind TableKind.view)

-- `table.incrementalQuery || table.query`, restricted as every adapter does it.
unfoldable pub new_rows : TableProto → String
unfolding restrict
new_rows t =
    restrict (if truthy t.incremental_query then t.incremental_query else t.query) t.condition

-- `tableMetadata.fields.map(f => f.name)`, where there is metadata.
abbrev pub columns_of : Option ExistingTable → List String
columns_of none = []
columns_of (some e) = e.fields

-- `table.uniqueKey && table.uniqueKey.length > 0`
abbrev pub has_key : TableProto → Bool
has_key t = elim t.unique_key [ [] ↦ false | k ∷ ks ↦ true ]

module _ (resolve : Target → String) where
  -- `dropIfExists` of the base class
  unfoldable pub drop_if_exists : Target → TableKind → Result String
  unfolding table_type_as_sql template
  drop_if_exists target kind = do
    sql ← table_type_as_sql kind
    ok (
        template (
          "drop "
          ∷ sql
          ∷ " if exists "
          ∷ resolve target
          ∷ " "
          ∷ (if same_kind kind TableKind.table then "cascade" else "")
          ∷ []))

  -- `insertInto` of the base class
  unfoldable pub insert_into : Target → List String → String → String
  unfolding template join
  insert_into target columns query = template (
      "\t\ninsert into "
      ∷ resolve target
      ∷ "\t\n("
      ∷ join "," columns
      ∷ ")\t\nselect "
      ∷ join "," columns
      ∷ "\t\nfrom ("
      ∷ query
      ∷ ") as insertions"
      ∷ [])

  -- `select sum(1) …`, the last task of an assertion.
  unfoldable pub count_rows : Target → String
  unfolding template
  count_rows target = template ("select sum(1) as row_count from " ∷ resolve target ∷ [])

module _ (semver : Semver) (version : String) where
  -- Whether the operations of an incremental run are taken.
  unfoldable pub takes_incremental_ops : TableProto → Bool → Option ExistingTable → Bool
  unfolding should_write_incrementally
  takes_incremental_ops t full_refresh existing =
      semver.gt version "1.4.8"
      && t.type == "incremental"
      && should_write_incrementally full_refresh existing

  unfoldable pub pre_ops : TableProto → Bool → Option ExistingTable → List ExecutionTask
  unfolding takes_incremental_ops
  pre_ops t full_refresh existing =
      map (λ s. statement_task s)
        (if takes_incremental_ops t full_refresh existing then t.incremental_pre_ops else t.pre_ops)

  unfoldable pub post_ops : TableProto → Bool → Option ExistingTable → List ExecutionTask
  unfolding takes_incremental_ops
  post_ops t full_refresh existing =
      map (λ s. statement_task s)
        (if takes_incremental_ops t full_refresh existing
          then t.incremental_post_ops
          else t.post_ops)

-- The step of every `publishTasks` that drops an object of the other kind, with the adapter's
-- `dropIfExists`.
unfoldable pub drop_other_kind :
    (Target → TableKind → Result String)
    → TableProto
    → Option ExistingTable
    → Result (List ExecutionTask)
unfolding base_table_type opposite_table_type
drop_other_kind drop t none = do base ← base_table_type t.type; ok []
drop_other_kind drop t (some e) = do
  base ← base_table_type t.type
  let dropping : Result (List ExecutionTask) =
      opposite_table_type base >>= λ other. drop t.target other >>= λ s. ok (statement_task s ∷ [])
  if same_kind e.kind base then ok [] else dropping

-- `assertion.target || Target.create(...)`
unfoldable pub assertion_target : SessionConfig → AssertionProto → Target
assertion_target config a = elim a.target [
  | some t ↦ t
  | none ↦ record { database = ""; schema = config.assertion_schema; name = a.name }
]

-- `IAdapter`
pub record Adapter : Type 0 where
  pub resolve_target : Target → String
  pub normalize_identifier : String → String
  pub quote : String → String
  pub publish_tasks : TableProto → Bool → Option ExistingTable → Result (List ExecutionTask)
  pub assert_tasks : AssertionProto → SessionConfig → Result (List ExecutionTask)
  pub drop : Target → TableKind → Result String
