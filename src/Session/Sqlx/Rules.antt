-- ===== src/Session/Sqlx/Rules.antt =====
-- core/session.ts: when `sqlxAction` reports nothing.
use dataform.Prelude.{
  ◌≤◌, ◌≡◌, ◌≢◌, ◌↔◌, ◌⊎◌, refl, String, Bool, true, false, eq_iff, List, [], ◌∷◌, All, cons_ne_nil,
  arith,
}
use dataform.Session.Sqlx.{
  SqlxAction, defines_dataset, has_property, sqlx_checks, reports, sqlx_messages,
}

-- What may be said in an SQLX file of the type.
pub record IsAllowed (warehouse : String) (a : SqlxAction) : Type 0 where
  pub statements : (a.sql_statement_count ≤ 1) ⊎ (a.type ≡ "operations")
  pub protection : (has_property a "protected" ≡ false) ⊎ (a.type ≡ "incremental")
  pub wheres : (a.has_incremental_where ≡ false) ⊎ (a.type ≡ "incremental")
  pub schema : (has_property a "schema" ≡ true) ⊎ (a.type ≢ "declaration")
  pub inputs : (a.input_count ≡ 0) ⊎ (a.type ≡ "test")
  pub pre_operations : (a.has_pre_operations ≡ false) ⊎ (defines_dataset a.type ≡ true)
  pub post_operations : (a.has_post_operations ≡ false) ⊎ (defines_dataset a.type ≡ true)
  pub sql_data_warehouse :
      (has_property a "sqldatawarehouse" ≡ false)
      ⊎ (warehouse ≡ "bigquery")
      ⊎ (warehouse ≡ "snowflake")

true_ne_false : true ≢ false
true_ne_false e = cc

pub reports_iff :
    (checks : List (Bool × String)) → (reports checks ≡ []) ↔ All (λ c. c.0 ≡ false) checks
unfolding reports
reports_iff [] = (λ h. tt, λ h. refl)
reports_iff ((true, message) ∷ checks) =
    (λ h. absurd (cons_ne_nil h), λ h. absurd (true_ne_false h.0))
reports_iff ((false, message) ∷ checks) =
    let rest = reports_iff checks in (λ h. (refl, rest.0 h), λ h. rest.1 h.1)

checks-IsAllowed :
    (warehouse : String) (a : SqlxAction)
    → All (λ c. c.0 ≡ false) (sqlx_checks warehouse a)
    → IsAllowed warehouse a
unfolding sqlx_checks
checks-IsAllowed warehouse a (f1, (f2, (f3, (f4, (f5, (f6, (f7, (f8, _)))))))) = record {
  statements = ground (arith, eq_iff a.type "operations");
  protection = ground (arith, eq_iff a.type "incremental");
  wheres = ground (arith, eq_iff a.type "incremental");
  schema = ground (arith, eq_iff a.type "declaration");
  inputs = ground (arith, eq_iff a.type "test");
  pre_operations = ground arith;
  post_operations = ground arith;
  sql_data_warehouse = ground (arith, eq_iff warehouse "bigquery", eq_iff warehouse "snowflake");
}

IsAllowed-checks :
    (warehouse : String) (a : SqlxAction)
    → IsAllowed warehouse a
    → All (λ c. c.0 ≡ false) (sqlx_checks warehouse a)
unfolding sqlx_checks
IsAllowed-checks warehouse a r = (
  ground (arith, eq_iff a.type "operations", r.statements),
  (
    ground (arith, eq_iff a.type "incremental", r.protection),
    (
      ground (arith, eq_iff a.type "incremental", r.wheres),
      (
        ground (arith, eq_iff a.type "declaration", r.schema),
        (
          ground (arith, eq_iff a.type "test", r.inputs),
          (
            ground (arith, r.pre_operations),
            (
              ground (arith, r.post_operations),
              (
                ground (
                  arith,
                  eq_iff warehouse "bigquery",
                  eq_iff warehouse "snowflake",
                  r.sql_data_warehouse,
                ),
                tt,
              ),
            ),
          ),
        ),
      ),
    ),
  ),
)

-- The checks on an SQLX file report nothing exactly if it says what its type and the project's
-- warehouse allow; the options for SQL Data Warehouse are allowed for BigQuery and Snowflake only.
pub sqlx_messages_iff :
    (warehouse : String) (a : SqlxAction) → (sqlx_messages warehouse a ≡ []) ↔ IsAllowed warehouse a
unfolding sqlx_messages
sqlx_messages_iff warehouse a =
    let all = reports_iff (sqlx_checks warehouse a) in
    (λ h. checks-IsAllowed warehouse a (all.0 h), λ r. all.1 (IsAllowed-checks warehouse a r))
