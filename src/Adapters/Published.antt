-- ===== src/Adapters/Published.antt =====
-- core/adapters: for which types of tables `publishTasks` gives tasks.
use dataform.Prelude.{
  ◌≡◌, ◌≢◌, refl, ◌⊎◌, inl, inr, String, Bool, true, false, not, ◌||◌, ◌&&◌, ◌==◌, eq_iff,
  Bool-cases, List, Option, All, Result, ok, throw, Error, error, ◌>>=◌, arith,
}
use dataform.Proto.{TableKind, ExecutionTask}
use dataform.Proto.Core.{TableProto, SessionConfig, ExistingTable}
use dataform.Adapters.{
  Semver, Adapter, drop_if_exists, drop_other_kind, base_table_type, concatenate, pre_ops, post_ops,
}
use dataform.Adapters.BigQuery
use dataform.Adapters.Presto
use dataform.Adapters.Redshift
use dataform.Adapters.Snowflake
use dataform.Adapters.SqlDataWarehouse
use dataform.Adapters.Registry.{create}
use dataform.Adapters.Assertions.{IsStatement, create_cases}
use dataform.Adapters.Writing.{
  Returns, Throws, pre_ops-All, post_ops-All, Returns-chain, IsObject, base_table_type_cases,
  drop_other_kind-Returns, drop_other_kind-throw, drop_if_exists-IsTotal, bigquery_drop-IsTotal,
  redshift_drop-IsTotal, bind-Returns, bigquery_write-Returns, redshift_write-Returns,
  sql_data_warehouse_write-Returns,
}

-- Tables, views and incremental tables have a place in a warehouse; Presto has no incremental ones.
abbrev pub is_publishable : String → String → Bool
is_publishable warehouse type =
    type == "table" || type == "view" || type == "incremental" && not (warehouse == "presto")

-- What a `publishTasks` does with the type of its table.
abbrev pub Publication : String → String → Result (List ExecutionTask) → Type 0
Publication warehouse type r =
    (is_publishable warehouse type ≡ true) × Returns r
    ⊎ (is_publishable warehouse type ≡ false) × Throws r

Throws-bind {ℓ} :
    {A : Type ℓ} (r : Result A) (f : A → Result (List ExecutionTask)) (e : Error)
    → r ≡ throw e
    → Throws (r >>= f)
Throws-bind r f e h = (e, rw h refl)

concatenate-All : (l : List ExecutionTask) → All IsStatement l → All IsStatement (concatenate l)
unfolding concatenate
concatenate-All l h = (refl, tt)

presto_incremental :
    (warehouse type : String)
    → warehouse ≡ "presto"
    → type ≡ "incremental"
    → is_publishable warehouse type ≡ false
presto_incremental warehouse type p q = rw (p, q)

module _ (semver : Semver) (version : String) (t : TableProto) (full : Bool)
    (e : Option ExistingTable) where
  bigquery-Publication :
      (config : SessionConfig)
      → config.warehouse ≢ "presto"
      → Publication config.warehouse t.type (BigQuery.publish_tasks config semver version t full e)
  unfolding BigQuery.publish_tasks
  bigquery-Publication config other = elim (base_table_type_cases t.type) [
    | inl (known, (b, h, k)) ↦ inl (
      ground (arith, eq_iff config.warehouse "presto"),
      Returns-chain concatenate (pre_ops semver version t full e) (post_ops semver version t full e)
          _ _ concatenate-All (pre_ops-All semver version t full e)
          (post_ops-All semver version t full e)
          (drop_other_kind-Returns (BigQuery.drop config) (bigquery_drop-IsTotal config) t b e k h)
          (bigquery_write-Returns config t full e b k h),
    )
    | inr (unknown, (err, h)) ↦ inr (
      ground arith,
      Throws-bind _ _ err
          (drop_other_kind-throw (BigQuery.drop config) (bigquery_drop-IsTotal config) t e err h),
    )
  ]

  redshift-Publication :
      (config : SessionConfig)
      → config.warehouse ≢ "presto"
      → Publication config.warehouse t.type (Redshift.publish_tasks config semver version t full e)
  unfolding Redshift.publish_tasks
  redshift-Publication config other = elim (base_table_type_cases t.type) [
    | inl (known, (b, h, k)) ↦ inl (
      ground (arith, eq_iff config.warehouse "presto"),
      Returns-chain (λ l. l) (pre_ops semver version t full e) (post_ops semver version t full e) _
          _ (λ l x. x) (pre_ops-All semver version t full e) (post_ops-All semver version t full e)
          (drop_other_kind-Returns (Redshift.drop config semver version)
            (redshift_drop-IsTotal config semver version) t b e k h)
          (redshift_write-Returns config semver version t full e b k h),
    )
    | inr (unknown, (err, h)) ↦ inr (
      ground arith,
      Throws-bind _ _ err (
          drop_other_kind-throw (Redshift.drop config semver version)
            (redshift_drop-IsTotal config semver version) t e err h),
    )
  ]

  snowflake-Publication :
      (config : SessionConfig)
      → config.warehouse ≢ "presto"
      → Publication config.warehouse t.type (Snowflake.publish_tasks semver version t full e)
  unfolding Snowflake.publish_tasks
  snowflake-Publication config other = elim (base_table_type_cases t.type) [
    | inl (known, (b, h, k)) ↦ inl (
      ground (arith, eq_iff config.warehouse "presto"),
      Returns-chain (λ l. l) (pre_ops semver version t full e) (post_ops semver version t full e) _
          _ (λ l x. x) (pre_ops-All semver version t full e) (post_ops-All semver version t full e)
          (drop_other_kind-Returns (drop_if_exists Snowflake.resolve_target)
            (drop_if_exists-IsTotal Snowflake.resolve_target) t b e k h)
          (_, refl, (refl, tt)),
    )
    | inr (unknown, (err, h)) ↦ inr (
      ground arith,
      Throws-bind _ _ err (
          drop_other_kind-throw (drop_if_exists Snowflake.resolve_target)
            (drop_if_exists-IsTotal Snowflake.resolve_target) t e err h),
    )
  ]

  sql_data_warehouse-Publication :
      (config : SessionConfig)
      → config.warehouse ≢ "presto"
      → Publication config.warehouse t.type (SqlDataWarehouse.publish_tasks semver version t full e)
  unfolding SqlDataWarehouse.publish_tasks
  sql_data_warehouse-Publication config other = elim (base_table_type_cases t.type) [
    | inl (known, (b, h, k)) ↦ inl (
      ground (arith, eq_iff config.warehouse "presto"),
      Returns-chain concatenate (pre_ops semver version t full e) (post_ops semver version t full e)
          _ _ concatenate-All (pre_ops-All semver version t full e)
          (post_ops-All semver version t full e)
          (drop_other_kind-Returns (λ target kind. ok (SqlDataWarehouse.drop target kind))
            (λ target kind k. (SqlDataWarehouse.drop target kind, refl)) t b e k h)
          (sql_data_warehouse_write-Returns t full e b h),
    )
    | inr (unknown, (err, h)) ↦ inr (
      ground arith,
      Throws-bind _ _ err (
          drop_other_kind-throw (λ target kind. ok (SqlDataWarehouse.drop target kind))
            (λ target kind k. (SqlDataWarehouse.drop target kind, refl)) t e err h),
    )
  ]

  presto_drop-Returns :
      (config : SessionConfig) (b : TableKind)
      → IsObject b
      → base_table_type t.type ≡ ok b
      → Returns (drop_other_kind (drop_if_exists (Presto.resolve_target config)) t e)
  presto_drop-Returns config b k h =
      drop_other_kind-Returns (drop_if_exists (Presto.resolve_target config))
        (drop_if_exists-IsTotal (Presto.resolve_target config)) t b e k h

  presto-Publication :
      (config : SessionConfig)
      → config.warehouse ≡ "presto"
      → Publication config.warehouse t.type (Presto.publish_tasks config semver version t full e)
  unfolding Presto.publish_tasks
  presto-Publication config same = elim (base_table_type_cases t.type) [
    | inl (known, (b, h, k)) ↦
        let (l, f, hl) = presto_drop-Returns config b k h in
        elim (Bool-cases (t.type == "incremental")) [
          | inl now ↦ inr (
            presto_incremental config.warehouse t.type same ((eq_iff t.type "incremental").0 now),
            (
              error "Incremental table types are not currently supported for Presto.",
              rw f (rw now refl),
            ),
          )
          | inr all ↦ inl (
            ground arith,
            bind-Returns (drop_other_kind (drop_if_exists (Presto.resolve_target config)) t e) _ f
                (rw all (_, refl, (refl, tt))),
          )
        ]
    | inr (unknown, (err, h)) ↦ inr (
      ground arith,
      Throws-bind _ _ err (
          drop_other_kind-throw (drop_if_exists (Presto.resolve_target config))
            (drop_if_exists-IsTotal (Presto.resolve_target config)) t e err h),
    )
  ]

-- An adapter that `create` returns publishes a table exactly if its type is "table", "view" or, but for
-- Presto, "incremental", whatever stands in the warehouse: it then gives tasks that are statements, and
-- throws otherwise.
pub publish_tasks-Publication :
    (upper : String → String) (semver : Semver) (config : SessionConfig) (version : String)
    (a : Adapter) (t : TableProto) (full : Bool) (e : Option ExistingTable)
    → create upper semver config version ≡ ok a
    → Publication config.warehouse t.type (a.publish_tasks t full e)
unfolding BigQuery.adapter Redshift.adapter Snowflake.adapter SqlDataWarehouse.adapter
    Presto.adapter
publish_tasks-Publication upper semver config version a t full e h =
    create_cases upper semver config version
      (λ x. Publication config.warehouse t.type (x.publish_tasks t full e))
      (bigquery-Publication semver version t full e config)
      (presto-Publication semver version t full e config)
      (redshift-Publication semver version t full e config)
      (snowflake-Publication semver version t full e config)
      (sql_data_warehouse-Publication semver version t full e config) h
