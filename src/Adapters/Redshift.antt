-- ===== src/Adapters/Redshift.antt =====
-- core/adapters/redshift.ts, which serves Postgres too.
use dataform.Prelude.{
  String, Bool, false, not, ◌&&◌, ◌||◌, ◌==◌, List, [], ◌∷◌, ◌++◌, map, Option, none, some,
  if◌then◌else◌, Result, ok, ◌>>=◌,
}
use dataform.Prelude.Text.{template, join}
use dataform.Names.{truthy}
use dataform.Proto.{Target, TableKind, ExecutionTask}
use dataform.Proto.Core.{TableProto, AssertionProto, SessionConfig, ExistingTable}
use dataform.Adapters.{
  Semver, Adapter, statement_task, assertion_task, base_table_type, table_type_as_sql, sql_string,
  should_write_incrementally, new_rows, columns_of, has_key, insert_into, count_rows, pre_ops,
  post_ops, drop_other_kind, assertion_target,
}

unfoldable pub resolve_target : Target → String
unfolding template
resolve_target t = template ("\"" ∷ t.schema ∷ "\".\"" ∷ t.name ∷ "\"" ∷ [])

-- The target of the table that is filled and then renamed.
abbrev pub temporary : Target → Target
temporary t = record { database = ""; schema = t.schema; name = template (t.name ∷ "_temp" ∷ []) }

unfoldable pub create_table : TableProto → Target → String
unfolding resolve_target template join
create_table t target =
    let head = template ("create table " ∷ resolve_target target ∷ []) in
    elim t.redshift [
      | none ↦ template (head ∷ " as " ∷ t.query ∷ [])
      | some o ↦ template (
          head
          ∷ (if truthy o.dist_style && truthy o.dist_key
              then template (" diststyle " ∷ o.dist_style ∷ " distkey (" ∷ o.dist_key ∷ ")" ∷ [])
              else "")
          ∷ (if truthy o.sort_style
              then template (" " ∷ o.sort_style ∷ " sortkey (" ∷ join ", " o.sort_keys ∷ ")" ∷ [])
              else "")
          ∷ " as "
          ∷ t.query
          ∷ [])
    ]

unfoldable pub merge_into : Target → String → List String → List ExecutionTask
unfolding resolve_target template join
merge_into target query unique_key =
    let final = resolve_target target in
    let temp = template ("\"" ∷ target.schema ∷ "__" ∷ target.name ∷ "_incremental_temp\"" ∷ []) in
    map (λ s. statement_task s)
      (template ("drop table if exists " ∷ temp ∷ ";" ∷ [])
        ∷ template
            ("create temp table " ∷ temp ∷ " as select * from (" ∷ query ∷ "\n) as data;" ∷ [])
        ∷ "begin transaction;"
        ∷ template (
            "delete from "
            ∷ final
            ∷ " using "
            ∷ temp
            ∷ " where "
            ∷ join " and " (
                map (λ k. template (final ∷ ".\"" ∷ k ∷ "\" = " ∷ temp ∷ ".\"" ∷ k ∷ "\"" ∷ []))
                  unique_key)
            ∷ ";"
            ∷ [])
        ∷ template ("insert into " ∷ final ∷ " select * from " ∷ temp ∷ ";" ∷ [])
        ∷ "end transaction;"
        ∷ template ("drop table " ∷ temp ∷ ";" ∷ [])
        ∷ [])

module _ (config : SessionConfig) (semver : Semver) (version : String) where
  unfoldable pub is_bind_supported : Bool
  is_bind_supported = semver.lte version "1.10.0"

  unfoldable pub drop : Target → TableKind → Result String
  unfolding is_bind_supported resolve_target table_type_as_sql template
  drop target kind = do
    sql ← table_type_as_sql kind
    let query = template ("drop " ∷ sql ∷ " if exists " ∷ resolve_target target ∷ [])
    ok (
        if config.warehouse == "postgres" || is_bind_supported
        then template (query ∷ " cascade" ∷ [])
        else query)

  unfoldable pub create_or_replace_view : Target → String → Bool → String
  unfolding resolve_target template
  create_or_replace_view target query bind =
      let create =
        template ("create or replace view " ∷ resolve_target target ∷ " as " ∷ query ∷ []) in
      if bind || config.warehouse == "postgres"
      then create
      else template (create ∷ " with no schema binding" ∷ [])

  -- Whether a view is bound, if that is supported.
  unfoldable pub bind_of : TableProto → Bool
  bind_of t =
      let default = not (semver.gte version "1.4.1") in
      elim t.redshift [ none ↦ default | some o ↦ elim o.bind [ none ↦ default | some b ↦ b ] ]

  -- A view is dropped first, as its columns may change.
  unfoldable pub replace_view : TableProto → Result (List ExecutionTask)
  unfolding is_bind_supported drop create_or_replace_view bind_of base_table_type
  replace_view t = do
    base ← base_table_type t.type
    dropped ← drop t.target base
    ok (
        statement_task dropped
        ∷ statement_task (create_or_replace_view t.target t.query (bind_of t && is_bind_supported))
        ∷ [])

  unfoldable pub replace_table : TableProto → Result (List ExecutionTask)
  unfolding drop create_table base_table_type resolve_target template
  replace_table t = do
    base ← base_table_type t.type
    before ← drop (temporary t.target) base
    dropped ← drop t.target TableKind.table
    ok (
        statement_task before
        ∷ statement_task (create_table t (temporary t.target))
        ∷ statement_task dropped
        ∷ statement_task (
            template (
              "alter table "
              ∷ resolve_target (temporary t.target)
              ∷ " rename to \""
              ∷ t.target.name
              ∷ "\""
              ∷ []))
        ∷ [])

  unfoldable pub create_or_replace : TableProto → Result (List ExecutionTask)
  create_or_replace t = if t.type == "view" then replace_view t else replace_table t

  unfoldable pub write_incrementally : TableProto → Option ExistingTable → List ExecutionTask
  unfolding merge_into insert_into resolve_target new_rows
  write_incrementally t existing =
      if has_key t
      then merge_into t.target (new_rows t) t.unique_key
      else statement_task (insert_into resolve_target t.target (columns_of existing) (new_rows t))
        ∷ []

  -- The tasks between the operations before and those after.
  unfoldable pub write_tasks :
      TableProto → Bool → Option ExistingTable → Result (List ExecutionTask)
  unfolding should_write_incrementally
  write_tasks t full_refresh existing =
      if t.type == "incremental" && should_write_incrementally full_refresh existing
      then ok (write_incrementally t existing)
      else create_or_replace t

  unfoldable pub publish_tasks :
      TableProto → Bool → Option ExistingTable → Result (List ExecutionTask)
  unfolding drop write_tasks pre_ops post_ops drop_other_kind
  publish_tasks t full_refresh existing = do
    dropping ← drop_other_kind drop t existing
    writing ← write_tasks t full_refresh existing
    ok (
        pre_ops semver version t full_refresh existing
        ++ dropping
        ++ writing
        ++ post_ops semver version t full_refresh existing)

  unfoldable pub assert_tasks : AssertionProto → SessionConfig → Result (List ExecutionTask)
  unfolding drop create_or_replace_view assertion_target count_rows resolve_target
  assert_tasks a project = do
    dropped ← drop (assertion_target project a) TableKind.view
    ok (
        statement_task dropped
        ∷ statement_task (create_or_replace_view (assertion_target project a) a.query false)
        ∷ assertion_task (count_rows resolve_target (assertion_target project a))
        ∷ [])

  unfoldable pub adapter : Adapter
  unfolding resolve_target publish_tasks assert_tasks drop sql_string
  adapter = record {
    resolve_target = resolve_target;
    normalize_identifier = λ identifier. identifier;
    quote = sql_string;
    publish_tasks = publish_tasks;
    assert_tasks = assert_tasks;
    drop = drop;
  }
