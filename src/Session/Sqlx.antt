-- ===== src/Session/Sqlx.antt =====
-- core/session.ts: the checks of `sqlxAction` on what an SQLX file says, and the method that it takes
-- the action to.
pub mod Rules
use dataform.Prelude.{
  ℕ, ◌≤◌, ◌<◌, ◌≡◌, ◌≢◌, ◌↔◌, ◌⊎◌, refl, inl, inr, String, Bool, true, false, not, ◌||◌, ◌&&◌, ◌==◌,
  eq_iff, Bool-cases, ltb, ltb→lt, List, [], ◌∷◌, ◌++◌, if◌then◌else◌, includes, cons_ne_nil,
  Result, ok, throw, error, arith,
}
use dataform.Prelude.Text.{template}

-- `actionOptions`: of `sqlxConfig` its type and the names of its properties, and which of the optional
-- functions are given.
pub record SqlxAction : Type 0 where
  pub type : String
  pub properties : List String
  pub sql_statement_count : ℕ
  pub has_incremental_where : Bool
  pub input_count : ℕ
  pub has_pre_operations : Bool
  pub has_post_operations : Bool

unfoldable pub defines_dataset : String → Bool
defines_dataset type =
    type == "view" || type == "table" || type == "inline" || type == "incremental"

unfoldable pub has_property : SqlxAction → String → Bool
unfolding includes
has_property a name = includes a.properties name

-- The conditions under which `sqlxAction` reports an error, in a project of the warehouse.
unfoldable pub sqlx_checks : String → SqlxAction → List (Bool × String)
unfolding has_property defines_dataset
sqlx_checks warehouse a =
    (
      ltb 1 a.sql_statement_count && not (a.type == "operations"),
      "Actions may only contain more than one SQL statement if they are of type 'operations'.",
    )
    ∷ (
      has_property a "protected" && not (a.type == "incremental"),
      "Actions may only specify 'protected: true' if they are of type 'incremental'.",
    )
    ∷ (
      a.has_incremental_where && not (a.type == "incremental"),
      "Actions may only include incremental_where if they are of type 'incremental'.",
    )
    ∷ (
      not (has_property a "schema") && a.type == "declaration",
      "Actions of type 'declaration' must specify a value for 'schema'.",
    )
    ∷ (
      ltb 0 a.input_count && not (a.type == "test"),
      "Actions may only include input blocks if they are of type 'test'.",
    )
    ∷ (
      a.has_pre_operations && not (defines_dataset a.type),
      "Actions may only include pre_operations if they create a dataset.",
    )
    ∷ (
      a.has_post_operations && not (defines_dataset a.type),
      "Actions may only include post_operations if they create a dataset.",
    )
    ∷ (
      has_property a "sqldatawarehouse"
          && not (warehouse == "bigquery" || warehouse == "snowflake"),
      "Actions may only specify 'database' in projects whose warehouse is 'BigQuery' or 'Snowflake'.",
    )
    ∷ []

unfoldable pub reports : List (Bool × String) → List String
reports [] = []
reports ((b, message) ∷ checks) = if b then message ∷ reports checks else reports checks

-- The messages that `sqlxAction` reports.
unfoldable pub sqlx_messages : String → SqlxAction → List String
unfolding sqlx_checks reports
sqlx_messages warehouse a = reports (sqlx_checks warehouse a)

-- The method of the session that makes the action.
pub data Maker : Type 0 where
  publish assert operate declare test : Maker

unfoldable pub maker_of : String → Result Maker
unfolding template
maker_of type =
    if type == "view" || type == "table" || type == "inline" || type == "incremental"
    then ok publish
    else if type == "assertion"
    then ok assert
    else if type == "operations"
    then ok operate
    else if type == "declaration"
    then ok declare
    else if type == "test"
    then ok test
    else throw (error (template ("Unrecognized action type: " ∷ type ∷ [])))
