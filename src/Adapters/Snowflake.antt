-- ===== src/Adapters/Snowflake.antt =====
-- core/adapters/snowflake.ts
use dataform.Prelude.{
  String, Bool, false, ◌&&◌, ◌==◌, List, [], ◌∷◌, ◌++◌, map, Option, none, some, if◌then◌else◌,
  Result, ok, ◌>>=◌,
}
use dataform.Prelude.Text.{template, join}
use dataform.Names.{truthy}
use dataform.Proto.{Target, ExecutionTask}
use dataform.Proto.Core.{TableProto, AssertionProto, SessionConfig, ExistingTable}
use dataform.Adapters.{
  Semver, Adapter, statement_task, assertion_task, sql_string, should_write_incrementally, new_rows,
  columns_of, has_key, drop_if_exists, insert_into, count_rows, pre_ops, post_ops, drop_other_kind,
  assertion_target,
}

unfoldable pub resolve_target : Target → String
unfolding template
resolve_target t = template (
    (if truthy t.database then template ("\"" ∷ t.database ∷ "\"." ∷ []) else "")
    ∷ "\""
    ∷ t.schema
    ∷ "\".\""
    ∷ t.name
    ∷ "\""
    ∷ [])

unfoldable pub create_or_replace_view : Target → String → Bool → String
unfolding resolve_target template
create_or_replace_view target query secure = template (
    "create or replace "
    ∷ (if secure then "secure " else "")
    ∷ "view "
    ∷ resolve_target target
    ∷ " as "
    ∷ query
    ∷ [])

abbrev pub is_secure : TableProto → Bool
is_secure t = elim t.snowflake [ none ↦ false | some o ↦ o.secure ]

abbrev pub is_transient : TableProto → Bool
is_transient t = elim t.snowflake [ none ↦ false | some o ↦ o.transient ]

abbrev pub clusters : TableProto → List String
clusters t = elim t.snowflake [ none ↦ [] | some o ↦ o.cluster_by ]

unfoldable pub create_or_replace : TableProto → String
unfolding create_or_replace_view resolve_target template join
create_or_replace t =
    if t.type == "view"
    then create_or_replace_view t.target t.query (is_secure t)
    else template (
        "create or replace "
        ∷ (if is_transient t then "transient " else "")
        ∷ "table "
        ∷ resolve_target t.target
        ∷ " "
        ∷ elim (clusters t) [
          | [] ↦ ""
          | c ∷ cs ↦ template ("cluster by (" ∷ join ", " (c ∷ cs) ∷ ") " ∷ [])
        ]
        ∷ "as "
        ∷ t.query
        ∷ [])

unfoldable pub merge_into : Target → List String → String → List String → String
unfolding resolve_target template join
merge_into target columns query unique_key = template (
    "\nmerge into "
    ∷ resolve_target target
    ∷ " T\nusing ("
    ∷ query
    ∷ "\n) S\non "
    ∷ join " and " (map (λ k. template ("T." ∷ k ∷ " = S." ∷ k ∷ [])) unique_key)
    ∷ "\nwhen matched then\n  update set "
    ∷ join "," (map (λ c. template (c ∷ " = S." ∷ c ∷ [])) columns)
    ∷ "\nwhen not matched then\n  insert ("
    ∷ join "," columns
    ∷ ") values ("
    ∷ join "," columns
    ∷ ")"
    ∷ [])

unfoldable pub write_incrementally : TableProto → Option ExistingTable → String
unfolding merge_into insert_into resolve_target new_rows
write_incrementally t existing =
    if has_key t
    then merge_into t.target (columns_of existing) (new_rows t) t.unique_key
    else insert_into resolve_target t.target (columns_of existing) (new_rows t)

-- The tasks between the operations before and those after.
unfoldable pub write_tasks : TableProto → Bool → Option ExistingTable → Result (List ExecutionTask)
unfolding write_incrementally create_or_replace should_write_incrementally
write_tasks t full_refresh existing = ok (
    statement_task (
      if t.type == "incremental" && should_write_incrementally full_refresh existing
      then write_incrementally t existing
      else create_or_replace t)
    ∷ [])

unfoldable pub publish_tasks :
    Semver → String → TableProto → Bool → Option ExistingTable → Result (List ExecutionTask)
unfolding drop_if_exists resolve_target write_tasks pre_ops post_ops drop_other_kind
publish_tasks semver version t full_refresh existing = do
  dropping ← drop_other_kind (drop_if_exists resolve_target) t existing
  writing ← write_tasks t full_refresh existing
  ok (
      pre_ops semver version t full_refresh existing
      ++ dropping
      ++ writing
      ++ post_ops semver version t full_refresh existing)

unfoldable pub assert_tasks : AssertionProto → SessionConfig → Result (List ExecutionTask)
unfolding create_or_replace_view assertion_target count_rows resolve_target
assert_tasks a project =
    let target = assertion_target project a in
    ok (
      statement_task (create_or_replace_view target a.query false)
      ∷ assertion_task (count_rows resolve_target target)
      ∷ [])

-- `upper` is the engine's `toUpperCase`.
unfoldable pub adapter : (String → String) → Semver → String → Adapter
unfolding resolve_target publish_tasks assert_tasks drop_if_exists sql_string
adapter upper semver version = record {
  resolve_target = resolve_target;
  normalize_identifier = upper;
  quote = sql_string;
  publish_tasks = publish_tasks semver version;
  assert_tasks = assert_tasks;
  drop = drop_if_exists resolve_target;
}
