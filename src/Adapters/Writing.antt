-- ===== src/Adapters/Writing.antt =====
-- core/adapters: the parts of `publishTasks`, for a table whose type is known.
use dataform.Prelude.{
  ◌≡◌, refl, ◌⊎◌, inl, inr, String, Bool, true, false, ◌||◌, ◌&&◌, ◌==◌, Bool-cases, List, [], ◌∷◌,
  ◌++◌, map, Option, none, some, All, Result, ok, throw, Error, error, ◌>>=◌, arith,
}
use dataform.Prelude.Text.{template}
use dataform.Proto.{Target, TableKind, ExecutionTask}
use dataform.Proto.Core.{TableProto, SessionConfig, ExistingTable}
use dataform.Adapters.{
  Semver, statement_task, same_kind, drop_if_exists, table_type_as_sql, drop_other_kind,
  base_table_type, opposite_table_type, should_write_incrementally, has_key, pre_ops, post_ops,
}
use dataform.Adapters.BigQuery
use dataform.Adapters.Redshift
use dataform.Adapters.SqlDataWarehouse
use dataform.Adapters.Assertions.{IsStatement}

abbrev pub Returns : Result (List ExecutionTask) → Type 0
Returns r = (tasks : List ExecutionTask) × (r ≡ ok tasks) × All IsStatement tasks

abbrev pub Throws : Result (List ExecutionTask) → Type 0
Throws r = (e : Error) × (r ≡ throw e)

pub All-append :
    (xs ys : List ExecutionTask)
    → All IsStatement xs
    → All IsStatement ys
    → All IsStatement (xs ++ ys)
All-append [] ys h k = k
All-append (x ∷ xs) ys (h, hs) k = (h, All-append xs ys hs k)

pub All-map : (l : List String) → All IsStatement (map (λ s. statement_task s) l)
All-map [] = tt
All-map (s ∷ l) = (refl, All-map l)

pub pre_ops-All :
    (semver : Semver) (version : String) (t : TableProto) (full : Bool) (e : Option ExistingTable)
    → All IsStatement (pre_ops semver version t full e)
unfolding pre_ops
pre_ops-All semver version t full e = All-map _

pub post_ops-All :
    (semver : Semver) (version : String) (t : TableProto) (full : Bool) (e : Option ExistingTable)
    → All IsStatement (post_ops semver version t full e)
unfolding post_ops
post_ops-All semver version t full e = All-map _

-- The shape of every `publishTasks`.
pub Returns-chain :
    (finish : List ExecutionTask → List ExecutionTask) (pre post : List ExecutionTask)
    (dropping writing : Result (List ExecutionTask))
    → ((l : List ExecutionTask) → All IsStatement l → All IsStatement (finish l))
    → All IsStatement pre
    → All IsStatement post
    → Returns dropping
    → Returns writing
    → Returns (dropping >>= λ d. writing >>= λ w. ok (finish (pre ++ d ++ w ++ post)))
Returns-chain finish pre post dropping writing keep p q (d, e, hd) (w, f, hw) = (
  finish (pre ++ d ++ w ++ post),
  rw (e, f) refl,
  keep _ (All-append (pre ++ d ++ w) post (All-append (pre ++ d) w (All-append pre d p hd) hw) q),
)

abbrev pub IsObject : TableKind → Type 0
IsObject TableKind.unknown = ⊥
IsObject TableKind.table = Unit
IsObject TableKind.view = Unit

-- A table type is the type of an object, or is refused.
pub base_table_type_cases :
    (type : String)
    → ((type == "table" || type == "view" || type == "incremental") ≡ true)
        × ((b : TableKind) × (base_table_type type ≡ ok b) × IsObject b)
      ⊎ ((type == "table" || type == "view" || type == "incremental") ≡ false)
        × ((e : Error) × (base_table_type type ≡ throw e))
unfolding base_table_type
base_table_type_cases type = elim (Bool-cases (type == "table" || type == "incremental")) [
  | inl e ↦ inl (ground arith, (TableKind.table, rw e, tt))
  | inr e ↦ elim (Bool-cases (type == "view")) [
    | inl f ↦ inl (ground arith, (TableKind.view, rw (e, f), tt))
    | inr f ↦
        inr (ground arith, (error (template ("Unexpected table type: " ∷ type ∷ [])), rw (e, f)))
  ]
]

-- Dropping a table or a view gives a statement.
abbrev pub IsTotal : (Target → TableKind → Result String) → Type 0
IsTotal drop =
    (target : Target) (kind : TableKind) → IsObject kind → (s : String) × (drop target kind ≡ ok s)

module _ (drop : Target → TableKind → Result String) (total : IsTotal drop) (t : TableProto) where
  pub other_kind-Returns :
      (b : TableKind)
      → IsObject b
      → Returns (
          opposite_table_type b >>= λ other.
          drop t.target other >>= λ s. ok (statement_task s ∷ []))
  unfolding opposite_table_type
  other_kind-Returns TableKind.unknown k = absurd k
  other_kind-Returns TableKind.table k =
      let (s, e) = total t.target TableKind.view tt in (statement_task s ∷ [], rw e, (refl, tt))
  other_kind-Returns TableKind.view k =
      let (s, e) = total t.target TableKind.table tt in (statement_task s ∷ [], rw e, (refl, tt))

  pub drop_other_kind-Returns :
      (b : TableKind) (e : Option ExistingTable)
      → IsObject b
      → base_table_type t.type ≡ ok b
      → Returns (drop_other_kind drop t e)
  unfolding drop_other_kind
  drop_other_kind-Returns b none k h = ([], rw h, tt)
  drop_other_kind-Returns b (some e) k h = elim (Bool-cases (same_kind e.kind b)) [
    | inl same ↦ ([], rw (h, same), tt)
    | inr other ↦ let (l, f, hl) = other_kind-Returns b k in (l, rw (h, other) f, hl)
  ]

  pub drop_other_kind-throw :
      (e : Option ExistingTable) (err : Error)
      → base_table_type t.type ≡ throw err
      → drop_other_kind drop t e ≡ throw err
  unfolding drop_other_kind
  drop_other_kind-throw none err h = rw h
  drop_other_kind-throw (some e) err h = rw h

pub drop_if_exists-IsTotal : (resolve : Target → String) → IsTotal (drop_if_exists resolve)
unfolding drop_if_exists
drop_if_exists-IsTotal resolve target TableKind.unknown k = absurd k
drop_if_exists-IsTotal resolve target TableKind.table k = (_, refl)
drop_if_exists-IsTotal resolve target TableKind.view k = (_, refl)

pub bigquery_drop-IsTotal : (config : SessionConfig) → IsTotal (BigQuery.drop config)
unfolding BigQuery.drop
bigquery_drop-IsTotal config target TableKind.unknown k = absurd k
bigquery_drop-IsTotal config target TableKind.table k = (_, refl)
bigquery_drop-IsTotal config target TableKind.view k = (_, refl)

pub redshift_drop-IsTotal :
    (config : SessionConfig) (semver : Semver) (version : String)
    → IsTotal (Redshift.drop config semver version)
unfolding Redshift.drop
redshift_drop-IsTotal config semver version target TableKind.unknown k = absurd k
redshift_drop-IsTotal config semver version target TableKind.table k = (_, refl)
redshift_drop-IsTotal config semver version target TableKind.view k = (_, refl)

pub bind-total {ℓ κ} :
    {A : Type ℓ} {B : Type κ} (r : Result A) (f : A → Result B) {a : A}
    → r ≡ ok a
    → (b : B) × (f a ≡ ok b)
    → (b : B) × (r >>= f ≡ ok b)
bind-total r f e (b, g) = (b, rw e g)

pub bind-Returns {ℓ} :
    {A : Type ℓ} (r : Result A) (f : A → Result (List ExecutionTask)) {a : A}
    → r ≡ ok a
    → Returns (f a)
    → Returns (r >>= f)
bind-Returns r f e (l, g, h) = (l, rw e g, h)

-- A task that is made of a statement.
pub Returns-statement :
    {r : Result String} {s : String} → r ≡ ok s → Returns (r >>= λ x. ok (statement_task x ∷ []))
Returns-statement {s = s} e = (statement_task s ∷ [], rw e, (refl, tt))

pub bigquery_create-total :
    (config : SessionConfig) (t : TableProto) (b : TableKind)
    → IsObject b
    → base_table_type t.type ≡ ok b
    → (s : String) × (BigQuery.create_or_replace config t ≡ ok s)
unfolding BigQuery.create_or_replace table_type_as_sql
bigquery_create-total config t TableKind.unknown k h = absurd k
bigquery_create-total config t TableKind.table k h =
    bind-total (base_table_type t.type) _ h (_, refl)
bigquery_create-total config t TableKind.view k h =
    bind-total (base_table_type t.type) _ h (_, refl)

pub bigquery_write-Returns :
    (config : SessionConfig) (t : TableProto) (full : Bool) (e : Option ExistingTable)
    (b : TableKind)
    → IsObject b
    → base_table_type t.type ≡ ok b
    → Returns (BigQuery.write_tasks config t full e)
unfolding BigQuery.write_tasks
bigquery_write-Returns config t full e b k h =
    elim (Bool-cases (t.type == "incremental" && should_write_incrementally full e)) [
      | inl now ↦ rw now (_, refl, (refl, tt))
      | inr all ↦ rw all (Returns-statement (bigquery_create-total config t b k h).1)
    ]

module _ (config : SessionConfig) (semver : Semver) (version : String) (t : TableProto) where
  pub redshift_view-Returns :
      (b : TableKind)
      → IsObject b
      → base_table_type t.type ≡ ok b
      → Returns (Redshift.replace_view config semver version t)
  unfolding Redshift.replace_view
  redshift_view-Returns TableKind.unknown k h = absurd k
  redshift_view-Returns TableKind.table k h =
      bind-Returns (base_table_type t.type) _ h (_, refl, (refl, (refl, tt)))
  redshift_view-Returns TableKind.view k h =
      bind-Returns (base_table_type t.type) _ h (_, refl, (refl, (refl, tt)))

  pub redshift_table-Returns :
      (b : TableKind)
      → IsObject b
      → base_table_type t.type ≡ ok b
      → Returns (Redshift.replace_table config semver version t)
  unfolding Redshift.replace_table
  redshift_table-Returns TableKind.unknown k h = absurd k
  redshift_table-Returns TableKind.table k h =
      bind-Returns (base_table_type t.type) _ h (_, refl, (refl, (refl, (refl, (refl, tt)))))
  redshift_table-Returns TableKind.view k h =
      bind-Returns (base_table_type t.type) _ h (_, refl, (refl, (refl, (refl, (refl, tt)))))

  pub redshift_create-Returns :
      (b : TableKind)
      → IsObject b
      → base_table_type t.type ≡ ok b
      → Returns (Redshift.create_or_replace config semver version t)
  unfolding Redshift.create_or_replace
  redshift_create-Returns b k h = elim (Bool-cases (t.type == "view")) [
    | inl view ↦ rw view (redshift_view-Returns b k h)
    | inr table ↦ rw table (redshift_table-Returns b k h)
  ]

  pub incremental-All :
      (e : Option ExistingTable)
      → All IsStatement (Redshift.write_incrementally config semver version t e)
  unfolding Redshift.write_incrementally
  incremental-All e = elim (Bool-cases (has_key t)) [
    | inl keyed ↦ rw keyed (refl, (refl, (refl, (refl, (refl, (refl, (refl, tt)))))))
    | inr plain ↦ rw plain (refl, tt)
  ]

  pub redshift_write-Returns :
      (full : Bool) (e : Option ExistingTable) (b : TableKind)
      → IsObject b
      → base_table_type t.type ≡ ok b
      → Returns (Redshift.write_tasks config semver version t full e)
  unfolding Redshift.write_tasks
  redshift_write-Returns full e b k h =
      elim (Bool-cases (t.type == "incremental" && should_write_incrementally full e)) [
        | inl now ↦ rw now (_, refl, incremental-All e)
        | inr all ↦ rw all (redshift_create-Returns b k h)
      ]

pub sql_data_warehouse_table-Returns :
    (t : TableProto) (b : TableKind)
    → base_table_type t.type ≡ ok b
    → Returns (SqlDataWarehouse.replace_table t)
unfolding SqlDataWarehouse.replace_table
sql_data_warehouse_table-Returns t b h =
    bind-Returns (base_table_type t.type) _ h (_, refl, (refl, (refl, (refl, (refl, tt)))))

pub sql_data_warehouse_create-Returns :
    (t : TableProto) (exists : Bool) (b : TableKind)
    → base_table_type t.type ≡ ok b
    → Returns (SqlDataWarehouse.create_or_replace t exists)
unfolding SqlDataWarehouse.create_or_replace
sql_data_warehouse_create-Returns t exists b h = elim (Bool-cases (t.type == "view")) [
  | inl view ↦ rw view (_, refl, (refl, tt))
  | inr table ↦ rw table (sql_data_warehouse_table-Returns t b h)
]

pub sql_data_warehouse_write-Returns :
    (t : TableProto) (full : Bool) (e : Option ExistingTable) (b : TableKind)
    → base_table_type t.type ≡ ok b
    → Returns (SqlDataWarehouse.write_tasks t full e)
unfolding SqlDataWarehouse.write_tasks
sql_data_warehouse_write-Returns t full e b h =
    elim (Bool-cases (t.type == "incremental" && should_write_incrementally full e)) [
      | inl now ↦ rw now (_, refl, (refl, tt))
      | inr all ↦ rw all (sql_data_warehouse_create-Returns t (SqlDataWarehouse.exists e) b h)
    ]
