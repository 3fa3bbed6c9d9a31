-- ===== src/Adapters/BigQuery.antt =====
-- core/adapters/bigquery.ts
use dataform.Prelude.{
  String, Bool, ◌&&◌, ◌==◌, List, [], ◌∷◌, ◌++◌, map, Option, none, some, if◌then◌else◌, Result, ok,
  ◌>>=◌,
}
use dataform.Prelude.Text.{template, join, or_else}
use dataform.Names.{truthy}
use dataform.Proto.{Target, TableKind, ExecutionTask}
use dataform.Proto.Core.{TableProto, AssertionProto, SessionConfig, ExistingTable}
use dataform.Adapters.{
  Semver, Adapter, statement_task, assertion_task, concatenate, base_table_type, table_type_as_sql,
  sql_string, should_write_incrementally, new_rows, columns_of, has_key, insert_into, count_rows,
  pre_ops, post_ops, drop_other_kind, assertion_target,
}

abbrev pub back_ticked : String → String
back_ticked column = template ("`" ∷ column ∷ "`" ∷ [])

module _ (config : SessionConfig) where
  unfoldable pub resolve_target : Target → String
  unfolding template
  resolve_target t = template (
      "`"
      ∷ or_else t.database config.default_database
      ∷ "."
      ∷ or_else t.schema config.default_schema
      ∷ "."
      ∷ t.name
      ∷ "`"
      ∷ [])

  unfoldable pub drop : Target → TableKind → Result String
  unfolding resolve_target table_type_as_sql template
  drop target kind = do
    sql ← table_type_as_sql kind
    ok (template ("drop " ∷ sql ∷ " if exists " ∷ resolve_target target ∷ []))

  -- What `createOrReplace` says of partitions and clusters.
  unfoldable pub table_options : TableProto → String
  unfolding template join
  table_options t = elim t.bigquery [
    | none ↦ ""
    | some o ↦ template (
        (if truthy o.partition_by
          then template ("partition by " ∷ o.partition_by ∷ " " ∷ [])
          else "")
        ∷ elim o.cluster_by [
          | [] ↦ ""
          | c ∷ cs ↦ template ("cluster by " ∷ join ", " (c ∷ cs) ∷ " " ∷ [])
        ]
        ∷ [])
  ]

  unfoldable pub create_or_replace : TableProto → Result String
  unfolding resolve_target base_table_type table_type_as_sql table_options template
  create_or_replace t = do
    base ← base_table_type t.type
    sql ← table_type_as_sql base
    ok (
        template (
          "create or replace "
          ∷ sql
          ∷ " "
          ∷ resolve_target t.target
          ∷ " "
          ∷ table_options t
          ∷ "as "
          ∷ t.query
          ∷ []))

  unfoldable pub create_or_replace_view : Target → String → String
  unfolding resolve_target template
  create_or_replace_view target query =
      template ("\n      create or replace view " ∷ resolve_target target ∷ " as " ∷ query ∷ [])

  unfoldable pub merge_into : Target → List String → String → List String → String → String
  unfolding resolve_target template join
  merge_into target columns query unique_key update_partition_filter = template (
      "\nmerge "
      ∷ resolve_target target
      ∷ " T\nusing ("
      ∷ query
      ∷ "\n) S\non "
      ∷ join " and " (map (λ k. template ("T." ∷ k ∷ " = S." ∷ k ∷ [])) unique_key)
      ∷ "\n  "
      ∷ (if truthy update_partition_filter
          then template ("and T." ∷ update_partition_filter ∷ [])
          else "")
      ∷ "\nwhen matched then\n  update set "
      ∷ join "," (map (λ c. template ("`" ∷ c ∷ "` = S." ∷ c ∷ [])) columns)
      ∷ "\nwhen not matched then\n  insert ("
      ∷ join "," (map back_ticked columns)
      ∷ ") values ("
      ∷ join "," (map back_ticked columns)
      ∷ ")"
      ∷ [])

  -- `table.bigquery && table.bigquery.updatePartitionFilter`
  abbrev pub partition_filter : TableProto → String
  partition_filter t = elim t.bigquery [ none ↦ "" | some o ↦ o.update_partition_filter ]

  unfoldable pub write_incrementally : TableProto → Option ExistingTable → String
  unfolding merge_into insert_into resolve_target new_rows
  write_incrementally t existing =
      if has_key t
      then merge_into t.target (columns_of existing) (new_rows t) t.unique_key (partition_filter t)
      else insert_into resolve_target t.target (map back_ticked (columns_of existing)) (new_rows t)

  -- The tasks between the operations before and those after.
  unfoldable pub write_tasks :
      TableProto → Bool → Option ExistingTable → Result (List ExecutionTask)
  unfolding should_write_incrementally
  write_tasks t full_refresh existing =
      if t.type == "incremental" && should_write_incrementally full_refresh existing
      then ok (statement_task (write_incrementally t existing) ∷ [])
      else create_or_replace t >>= λ s. ok (statement_task s ∷ [])

  unfoldable pub publish_tasks :
      Semver → String → TableProto → Bool → Option ExistingTable → Result (List ExecutionTask)
  unfolding drop write_tasks pre_ops post_ops drop_other_kind concatenate
  publish_tasks semver version t full_refresh existing = do
    dropping ← drop_other_kind drop t existing
    writing ← write_tasks t full_refresh existing
    ok (
        concatenate (
          pre_ops semver version t full_refresh existing
          ++ dropping
          ++ writing
          ++ post_ops semver version t full_refresh existing))

  unfoldable pub assert_tasks : AssertionProto → SessionConfig → Result (List ExecutionTask)
  unfolding create_or_replace_view assertion_target count_rows
  assert_tasks a project =
      let target = assertion_target project a in
      ok (
        statement_task (create_or_replace_view target a.query)
        ∷ assertion_task (count_rows resolve_target target)
        ∷ [])

  unfoldable pub adapter : Semver → String → Adapter
  unfolding resolve_target publish_tasks assert_tasks drop sql_string
  adapter semver version = record {
    resolve_target = resolve_target;
    normalize_identifier = λ identifier. identifier;
    quote = sql_string;
    publish_tasks = publish_tasks semver version;
    assert_tasks = assert_tasks;
    drop = drop;
  }
