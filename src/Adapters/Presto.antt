-- ===== src/Adapters/Presto.antt =====
-- core/adapters/presto.ts
use dataform.Prelude.{
  String, Bool, ◌==◌, List, [], ◌∷◌, ◌++◌, Option, none, some, if◌then◌else◌, Result, ok, throw,
  error, ◌>>=◌,
}
use dataform.Prelude.Text.{template, join, or_else}
use dataform.Proto.{Target, ExecutionTask}
use dataform.Proto.Core.{TableProto, AssertionProto, SessionConfig, ExistingTable}
use dataform.Adapters.{
  Semver, Adapter, statement_task, assertion_task, concatenate, sql_string, drop_if_exists,
  count_rows, pre_ops, post_ops, drop_other_kind, assertion_target,
}

module _ (config : SessionConfig) where
  unfoldable pub resolve_target : Target → String
  unfolding template
  resolve_target t = template (
      "\""
      ∷ or_else t.database config.default_database
      ∷ "\".\""
      ∷ or_else t.schema config.default_schema
      ∷ "\".\""
      ∷ t.name
      ∷ "\""
      ∷ [])

  unfoldable pub create_or_replace_view : Target → String → String
  unfolding resolve_target template
  create_or_replace_view target query =
      template ("create or replace view " ∷ resolve_target target ∷ " as " ∷ query ∷ [])

  -- An array is truthy even when it has no member.
  unfoldable pub create_table : TableProto → String
  unfolding resolve_target template join
  create_table t = template (
      "create table if not exists "
      ∷ resolve_target t.target
      ∷ " as "
      ∷ t.query
      ∷ " "
      ∷ elim t.presto [
        | none ↦ ""
        | some o ↦ template ("with (partitioned_by = array[" ∷ join ", " o.partition_by ∷ "]" ∷ [])
      ]
      ∷ [])

  unfoldable pub create_or_replace : TableProto → String
  unfolding create_table
  create_or_replace t = create_table t

  unfoldable pub publish_tasks :
      Semver → String → TableProto → Bool → Option ExistingTable → Result (List ExecutionTask)
  unfolding drop_if_exists resolve_target create_or_replace pre_ops post_ops drop_other_kind
      concatenate
  publish_tasks semver version t full_refresh existing = do
    dropping ← drop_other_kind (drop_if_exists resolve_target) t existing
    if t.type == "incremental"
        then throw (error "Incremental table types are not currently supported for Presto.")
        else ok (
            concatenate (
              pre_ops semver version t full_refresh existing
              ++ dropping
              ++ statement_task (create_or_replace t) ∷ []
              ++ post_ops semver version t full_refresh existing))

  unfoldable pub assert_tasks : AssertionProto → SessionConfig → Result (List ExecutionTask)
  unfolding create_or_replace_view assertion_target count_rows resolve_target
  assert_tasks a project =
      let target = assertion_target project a in
      ok (
        statement_task (create_or_replace_view target a.query)
        ∷ assertion_task (count_rows resolve_target target)
        ∷ [])

  unfoldable pub adapter : Semver → String → Adapter
  unfolding resolve_target publish_tasks assert_tasks drop_if_exists sql_string
  adapter semver version = record {
    resolve_target = resolve_target;
    normalize_identifier = λ identifier. identifier;
    quote = sql_string;
    publish_tasks = publish_tasks semver version;
    assert_tasks = assert_tasks;
    drop = drop_if_exists resolve_target;
  }
