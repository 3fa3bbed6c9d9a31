-- ===== src/Adapters/Registry.antt =====
-- core/adapters/index.ts: the choice of an adapter, and the queries that are evaluated for an action.
use dataform.Prelude.{
  String, Bool, true, false, ◌||◌, ◌==◌, List, [], ◌∷◌, ◌++◌, map, if◌then◌else◌, filter, any,
  Result, ok, throw, error,
}
use dataform.Prelude.Text.{template}
use dataform.Names.{truthy}
use dataform.Proto.Core.{TableProto, SessionConfig}
use dataform.Adapters.{Semver, Adapter, concatenate_queries}
use dataform.Adapters.BigQuery
use dataform.Adapters.Presto
use dataform.Adapters.Redshift
use dataform.Adapters.Snowflake
use dataform.Adapters.SqlDataWarehouse

-- `create`, with the calls of `register`.
unfoldable pub create : (String → String) → Semver → SessionConfig → String → Result Adapter
unfolding template
create upper semver config version =
    if config.warehouse == "bigquery"
    then ok (BigQuery.adapter config semver version)
    else if config.warehouse == "presto"
    then ok (Presto.adapter config semver version)
    else if config.warehouse == "postgres" || config.warehouse == "redshift"
    then ok (Redshift.adapter config semver version)
    else if config.warehouse == "snowflake"
    then ok (Snowflake.adapter upper semver version)
    else if config.warehouse == "sqldatawarehouse"
    then ok (SqlDataWarehouse.adapter semver version)
    else throw (error (template ("Unsupported warehouse: " ∷ config.warehouse ∷ [])))

-- `supportsCancel`
unfoldable pub supports_cancel : String → Bool
supports_cancel warehouse = any (λ w. w == warehouse) ("bigquery" ∷ "sqldatawarehouse" ∷ [])

-- `QueryOrAction`: of an operation and an assertion only the queries are read.
pub data QueryOrAction : Type 0 where
  query : String → QueryOrAction
  table : TableProto → QueryOrAction
  operation : List String → QueryOrAction
  assertion : String → QueryOrAction

-- `ValidationQuery`
pub record ValidationQuery : Type 0 where
  pub text : String
  pub incremental : Bool

-- The queries of one kind, as one or one by one.
unfoldable pub evaluated : Bool → (String → String) → Bool → List String → List ValidationQuery
unfolding concatenate_queries
evaluated concatenated modify is_incremental queries =
    if concatenated
    then record { text = concatenate_queries queries modify; incremental = is_incremental } ∷ []
    else map (λ q. record { text = modify q; incremental = is_incremental }) queries

unfoldable pub queries_of : Bool → (String → String) → QueryOrAction → List ValidationQuery
unfolding evaluated
queries_of concatenated modify (query q) = record { text = modify q; incremental = false } ∷ []
queries_of concatenated modify (table t) =
    (if t.type == "incremental"
      then evaluated concatenated modify true
          (t.incremental_pre_ops ++ (t.incremental_query ∷ t.incremental_post_ops))
      else [])
    ++ evaluated concatenated modify false (t.pre_ops ++ (t.query ∷ t.post_ops))
queries_of concatenated modify (operation queries) = evaluated concatenated modify false queries
queries_of concatenated modify (assertion q) = record { text = modify q; incremental = false } ∷ []

-- `collectEvaluationQueries`. The trimmed text that is given for `query` is overwritten by the spread
-- of the query that follows it, so the texts stay as they are.
-- The code's try block wraps what its branches throw, and these throw for nothing that the type allows.
unfoldable pub collect_evaluation_queries :
    QueryOrAction → Bool → (String → String) → List ValidationQuery
unfolding queries_of
collect_evaluation_queries action concatenated modify =
    filter (λ v. truthy v.text) (queries_of concatenated modify action)
