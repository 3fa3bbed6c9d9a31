-- ===== src/Adapters/SqlDataWarehouse.antt =====
-- core/adapters/sqldatawarehouse.ts
use dataform.Prelude.{
  String, Bool, true, false, ◌&&◌, ◌==◌, List, [], ◌∷◌, ◌++◌, Option, none, some, if◌then◌else◌,
  Result, ok, ◌>>=◌,
}
use dataform.Prelude.Text.{template, join, or_else}
use dataform.Proto.{Target, TableKind, ExecutionTask}
use dataform.Proto.Core.{TableProto, AssertionProto, SessionConfig, ExistingTable}
use dataform.Adapters.{
  same_kind, escape_with, Semver, Adapter, statement_task, assertion_task, concatenate,
  base_table_type, should_write_incrementally, new_rows, columns_of, count_rows, pre_ops, post_ops,
  drop_other_kind, assertion_target,
}

unfoldable pub quote : String → String
unfolding escape_with template
quote s = template ("'" ∷ escape_with "'" b'\'' s ∷ "'" ∷ [])

unfoldable pub resolve_target : Target → String
unfolding template
resolve_target t = template ("\"" ∷ t.schema ∷ "\".\"" ∷ t.name ∷ "\"" ∷ [])

abbrev pub temporary : Target → Target
temporary t = record { database = ""; schema = t.schema; name = template (t.name ∷ "_temp" ∷ []) }

unfoldable pub drop : Target → TableKind → String
unfolding resolve_target template
drop target kind =
    if same_kind kind TableKind.view
    then template ("drop view if exists " ∷ resolve_target target ∷ " " ∷ [])
    else template (
        "if object_id ('"
        ∷ resolve_target target
        ∷ "','U') is not null drop table "
        ∷ resolve_target target
        ∷ [])

unfoldable pub insert_into : Target → List String → String → String
unfolding resolve_target template join
insert_into target columns query = template (
    "\ninsert into "
    ∷ resolve_target target
    ∷ "\n("
    ∷ join "," columns
    ∷ ")\nselect "
    ∷ join "," columns
    ∷ "\nfrom ("
    ∷ query
    ∷ "\n) as insertions"
    ∷ [])

unfoldable pub create_table : TableProto → Target → String
unfolding resolve_target template
create_table t target =
    let distribution : String = elim t.sql_data_warehouse [
      | none ↦ "ROUND_ROBIN"
      | some o ↦ or_else o.distribution "ROUND_ROBIN"
    ] in
    template (
      "create table "
      ∷ resolve_target target
      ∷ "\n     with(\n       distribution = "
      ∷ distribution
      ∷ "\n     ) \n     as "
      ∷ t.query
      ∷ [])

unfoldable pub replace_table : TableProto → Result (List ExecutionTask)
unfolding drop create_table base_table_type resolve_target template
replace_table t = do
  base ← base_table_type t.type
  ok (
      statement_task (drop (temporary t.target) base)
      ∷ statement_task (create_table t (temporary t.target))
      ∷ statement_task (drop t.target TableKind.table)
      ∷ statement_task (
          template (
            "rename object "
            ∷ resolve_target (temporary t.target)
            ∷ " to "
            ∷ t.target.name
            ∷ " "
            ∷ []))
      ∷ [])

unfoldable pub create_or_replace : TableProto → Bool → Result (List ExecutionTask)
unfolding resolve_target template
create_or_replace t already_exists =
    if t.type == "view"
    then ok (
        statement_task (
          template (
            (if already_exists then "alter" else "create")
            ∷ " view "
            ∷ resolve_target t.target
            ∷ " as "
            ∷ t.query
            ∷ []))
        ∷ [])
    else replace_table t

-- `!!tableMetadata`
abbrev pub exists : Option ExistingTable → Bool
exists none = false
exists (some e) = true

-- The tasks between the operations before and those after.
unfoldable pub write_tasks : TableProto → Bool → Option ExistingTable → Result (List ExecutionTask)
unfolding insert_into new_rows should_write_incrementally
write_tasks t full_refresh existing =
    if t.type == "incremental" && should_write_incrementally full_refresh existing
    then ok (statement_task (insert_into t.target (columns_of existing) (new_rows t)) ∷ [])
    else create_or_replace t (exists existing)

unfoldable pub publish_tasks :
    Semver → String → TableProto → Bool → Option ExistingTable → Result (List ExecutionTask)
unfolding drop write_tasks pre_ops post_ops drop_other_kind concatenate
publish_tasks semver version t full_refresh existing = do
  dropping ← drop_other_kind (λ target kind. ok (drop target kind)) t existing
  writing ← write_tasks t full_refresh existing
  ok (
      concatenate (
        pre_ops semver version t full_refresh existing
        ++ dropping
        ++ writing
        ++ post_ops semver version t full_refresh existing))

unfoldable pub assert_tasks : AssertionProto → SessionConfig → Result (List ExecutionTask)
unfolding drop assertion_target count_rows resolve_target template
assert_tasks a project =
    let target = assertion_target project a in
    ok (
      statement_task (drop target TableKind.view)
      ∷ statement_task (
          template
            ("\n        create view " ∷ resolve_target target ∷ "\n        as " ∷ a.query ∷ []))
      ∷ assertion_task (count_rows resolve_target target)
      ∷ [])

unfoldable pub adapter : Semver → String → Adapter
unfolding resolve_target publish_tasks assert_tasks drop quote
adapter semver version = record {
  resolve_target = resolve_target;
  normalize_identifier = λ identifier. identifier;
  quote = quote;
  publish_tasks = publish_tasks semver version;
  assert_tasks = assert_tasks;
  drop = λ target kind. ok (drop target kind);
}
