-- ===== src/Adapters/Assertions.antt =====
-- core/adapters: what the tasks of an assertion are, and when `publishTasks` gives tasks.
use dataform.Prelude.{
  ◌≡◌, sym, ◌∙◌, refl, ◌≢◌, ◌⊎◌, inl, inr, String, false, ◌||◌, ◌==◌, Bool-cases, eq-cases,
  ok_injective, throw_ne_ok, subst, List, [], ◌∷◌, ◌++◌, ok,
}
use Prim.Native.String
use text.Mathlib.TextLemmas.{append_assoc}
use dataform.Prelude.Text.{template, trim}
use dataform.Proto.{Target, TableKind, ExecutionTask}
use dataform.Proto.Core.{AssertionProto, SessionConfig}
use dataform.Adapters.{Semver, Adapter, statement_task, assertion_task, assertion_target}
use dataform.Adapters.BigQuery
use dataform.Adapters.Presto
use dataform.Adapters.Redshift
use dataform.Adapters.Snowflake
use dataform.Adapters.SqlDataWarehouse
use dataform.Adapters.Registry.{create}

abbrev pub IsStatement : ExecutionTask → Type 0
IsStatement t = t.type ≡ "statement"

-- A text that creates the view from the query: words and blanks before, between and after them.
pub record IsCreation (view query text : String) : Type 0 where
  pub lead : String
  pub middle : String
  pub create_words : (trim lead ≡ "create view") ⊎ (trim lead ≡ "create or replace view")
  pub as_word : trim middle ≡ "as"
  pub reads :
      (text ≡ template (lead ∷ view ∷ middle ∷ query ∷ []))
      ⊎ (text
          ≡ template
              (template (lead ∷ view ∷ middle ∷ query ∷ []) ∷ " with no schema binding" ∷ []))

-- The view is dropped first, unless it is created by a statement that replaces it.
pub data IsRenewal (a : Adapter) (target : Target) (lead : String)
    : List ExecutionTask → Type 0 where
  replaced : trim lead ≡ "create or replace view" → IsRenewal a target lead []
  dropped :
      (text : String)
      → a.drop target TableKind.view ≡ ok text
      → IsRenewal a target lead (statement_task text ∷ [])

-- Tasks that make the view anew from the assertion's query and then count its rows.
pub record IsAssertionRun (a : Adapter) (config : SessionConfig) (assertion : AssertionProto)
    : Type 0 where
  pub before : List ExecutionTask
  pub text : String
  pub creation :
      IsCreation (a.resolve_target (assertion_target config assertion)) assertion.query text
  pub renewal : IsRenewal a (assertion_target config assertion) creation.lead before
  pub run :
      a.assert_tasks assertion config
      ≡ ok (
          before
          ++ statement_task text ∷ []
          ++ assertion_task (
              template (
                "select sum(1) as row_count from "
                ∷ a.resolve_target (assertion_target config assertion)
                ∷ []))
            ∷ [])

-- What holds of the adapter of every warehouse holds of the one that `create` gives.
pub create_cases {ℓ} :
    (upper : String → String) (semver : Semver) (config : SessionConfig) (version : String)
    {a : Adapter} (P : Adapter → Type ℓ)
    → (config.warehouse ≢ "presto" → P (BigQuery.adapter config semver version))
    → (config.warehouse ≡ "presto" → P (Presto.adapter config semver version))
    → (config.warehouse ≢ "presto" → P (Redshift.adapter config semver version))
    → (config.warehouse ≢ "presto" → P (Snowflake.adapter upper semver version))
    → (config.warehouse ≢ "presto" → P (SqlDataWarehouse.adapter semver version))
    → create upper semver config version ≡ ok a
    → P a
unfolding create
create_cases upper semver config version P bigquery presto redshift snowflake sqldw h =
    elim (eq-cases config.warehouse "bigquery") [
      | inl (e, _) ↦ subst P (ok_injective (rw e at h)) (bigquery (λ p. let q = rw p at e in cc))
      | inr (e, _) ↦ elim (eq-cases config.warehouse "presto") [
        | inl (f, same) ↦ subst P (ok_injective (rw (e, f) at h)) (presto same)
        | inr (f, other) ↦
            elim (Bool-cases (config.warehouse == "postgres" || config.warehouse == "redshift")) [
              | inl g ↦ subst P (ok_injective (rw (e, f, g) at h)) (redshift other)
              | inr g ↦ elim (Bool-cases (config.warehouse == "snowflake")) [
                | inl k ↦ subst P (ok_injective (rw (e, f, g, k) at h)) (snowflake other)
                | inr k ↦ elim (Bool-cases (config.warehouse == "sqldatawarehouse")) [
                  | inl l ↦ subst P (ok_injective (rw (e, f, g, k, l) at h)) (sqldw other)
                  | inr l ↦ absurd (throw_ne_ok (rw (e, f, g, k, l) at h))
                ]
              ]
            ]
      ]
    ]

module _ (p : SessionConfig) (s : AssertionProto) where
  bigquery-IsAssertionRun :
      (config : SessionConfig) (semver : Semver) (version : String)
      → IsAssertionRun (BigQuery.adapter config semver version) p s
  unfolding BigQuery.adapter trim
  bigquery-IsAssertionRun config semver version = record {
    before = [];
    text = _;
    creation = record {
      lead = "\n      create or replace view ";
      middle = " as ";
      create_words = inr refl;
      as_word = refl;
      reads = inl refl;
    };
    renewal = replaced refl;
    run = refl;
  }

  presto-IsAssertionRun :
      (config : SessionConfig) (semver : Semver) (version : String)
      → IsAssertionRun (Presto.adapter config semver version) p s
  unfolding Presto.adapter trim
  presto-IsAssertionRun config semver version = record {
    before = [];
    text = _;
    creation = record {
      lead = "create or replace view ";
      middle = " as ";
      create_words = inr refl;
      as_word = refl;
      reads = inl refl;
    };
    renewal = replaced refl;
    run = refl;
  }

  -- Views of Redshift are not bound to a schema, which Postgres does not know.
  redshift-IsCreation :
      (config : SessionConfig) (semver : Semver) (version : String) (target : Target)
      → IsCreation
          (Redshift.resolve_target target)
          s.query
          (Redshift.create_or_replace_view config semver version target s.query false)
  unfolding Redshift.create_or_replace_view trim
  redshift-IsCreation config semver version target = record {
    lead = "create or replace view ";
    middle = " as ";
    create_words = inr refl;
    as_word = refl;
    reads = elim (Bool-cases (config.warehouse == "postgres")) [
      | inl b ↦ inl (rw b refl)
      | inr b ↦ inr (rw b refl)
    ];
  }

  redshift-IsAssertionRun :
      (config : SessionConfig) (semver : Semver) (version : String)
      → IsAssertionRun (Redshift.adapter config semver version) p s
  unfolding Redshift.adapter
  redshift-IsAssertionRun config semver version = record {
    before = statement_task _ ∷ [];
    text = _;
    creation = redshift-IsCreation config semver version (assertion_target p s);
    renewal = dropped _ refl;
    run = refl;
  }

  snowflake_text :
      (target : Target)
      → Snowflake.create_or_replace_view target s.query false
        ≡ template
            ("create or replace view " ∷ Snowflake.resolve_target target ∷ " as " ∷ s.query ∷ [])
  unfolding Snowflake.create_or_replace_view
  snowflake_text target =
      let rest = template (Snowflake.resolve_target target ∷ " as " ∷ s.query ∷ []) in
      sym (append_assoc "create or replace " "" (String.◌++◌ "view " rest))
      ∙ sym (append_assoc "create or replace " "view " rest)

  snowflake-IsAssertionRun :
      (upper : String → String) (semver : Semver) (version : String)
      → IsAssertionRun (Snowflake.adapter upper semver version) p s
  unfolding Snowflake.adapter trim
  snowflake-IsAssertionRun upper semver version = record {
    before = [];
    text = Snowflake.create_or_replace_view (assertion_target p s) s.query false;
    creation = record {
      lead = "create or replace view ";
      middle = " as ";
      create_words = inr refl;
      as_word = refl;
      reads = inl (snowflake_text (assertion_target p s));
    };
    renewal = replaced refl;
    run = refl;
  }

  sql_data_warehouse-IsAssertionRun :
      (semver : Semver) (version : String)
      → IsAssertionRun (SqlDataWarehouse.adapter semver version) p s
  unfolding SqlDataWarehouse.adapter trim
  sql_data_warehouse-IsAssertionRun semver version = record {
    before = statement_task _ ∷ [];
    text = _;
    creation = record {
      lead = "\n        create view ";
      middle = "\n        as ";
      create_words = inl refl;
      as_word = refl;
      reads = inl refl;
    };
    renewal = dropped _ refl;
    run = refl;
  }

-- For every warehouse that is supported, the tasks of an assertion make a view of the assertion's target
-- from the assertion's own query, after a drop of that view where the statement does not replace it, and
-- end with one task of type "assertion", which counts the rows of that view; nothing comes between.
pub assert_tasks-IsAssertionRun :
    (upper : String → String) (semver : Semver) (config : SessionConfig) (version : String)
    (a : Adapter) (p : SessionConfig) (s : AssertionProto)
    → create upper semver config version ≡ ok a
    → IsAssertionRun a p s
assert_tasks-IsAssertionRun upper semver config version a p s h =
    create_cases upper semver config version (λ x. IsAssertionRun x p s)
      (λ _. bigquery-IsAssertionRun p s config semver version)
      (λ _. presto-IsAssertionRun p s config semver version)
      (λ _. redshift-IsAssertionRun p s config semver version)
      (λ _. snowflake-IsAssertionRun p s upper semver version)
      (λ _. sql_data_warehouse-IsAssertionRun p s semver version) h
