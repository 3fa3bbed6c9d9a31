-- ===== src/Session/Tables.antt =====
-- core/session.ts: `checkSessionActionValidity`, on the options of a table, with the engine's
-- `toUpperCase` as a parameter.
use Prim.Native.Char.{Char, code}
use dataform.Prelude.{
  String, Bool, true, false, not, ◌||◌, ◌&&◌, ◌==◌, nat_eq, List, [], ◌∷◌, ◌++◌, map, Option, none,
  some, if◌then◌else◌, includes,
}
use dataform.Prelude.Text.{template, join, between, is_space}
use dataform.Names.{truthy}
use dataform.Proto.Core.{
  SnowflakeOptions, BigQueryOptions, SqlDataWarehouseOptions, RedshiftConfig, Value, undefined,
  text, flag, array, object,
}
use dataform.Session.{SessionAction, CompilationError, error_at}
use dataform.Session.Sqlx.{reports}

-- `objectExistsOrIsNonEmpty`
unfoldable pub exists_or_is_non_empty : Value → Bool
exists_or_is_non_empty undefined = false
exists_or_is_non_empty (text s) = truthy s
exists_or_is_non_empty (flag b) = b
exists_or_is_non_empty (array []) = false
exists_or_is_non_empty (array (x ∷ xs)) = true
exists_or_is_non_empty (object []) = false
exists_or_is_non_empty (object (x ∷ xs)) = true

abbrev pub is_empty : List String → Bool
is_empty [] = true
is_empty (x ∷ xs) = false

-- `joinQuoted`
unfoldable pub join_quoted : List String → String
unfolding template join
join_quoted values = join " | " (map (λ value. template ("\"" ∷ value ∷ "\"" ∷ [])) values)

-- `\s*`
unfoldable skip_spaces : String → String
unfolding is_space
skip_spaces String.[] = ""
skip_spaces (String.◌∷◌ c s) = if is_space c then skip_spaces s else String.◌∷◌ c s

-- `\w`
unfoldable is_word : Char → Bool
is_word c =
    between 48 57 (code c)
    || between 65 90 (code c)
    || between 97 122 (code c)
    || nat_eq (code c) b'_'

-- `\w*`
unfoldable skip_word : String → String
unfolding is_word
skip_word String.[] = ""
skip_word (String.◌∷◌ c s) = if is_word c then skip_word s else String.◌∷◌ c s

-- What follows the expected text, if it stands first.
unfoldable after_prefix : String → String → Option String
after_prefix String.[] s = some s
after_prefix (String.◌∷◌ c expected) String.[] = none
after_prefix (String.◌∷◌ c expected) (String.◌∷◌ d s) =
    let rest = after_prefix expected s in if nat_eq (code c) (code d) then rest else none

-- The expression `HASH\s*\(\s*\w*\s*\)\s*`, where the text begins.
unfoldable is_hash : String → Bool
unfolding after_prefix skip_spaces skip_word
is_hash s = elim (after_prefix "HASH" s) [
  | none ↦ false
  | some bracket ↦ elim (after_prefix "(" (skip_spaces bracket)) [
    | none ↦ false
    | some column ↦ elim (after_prefix ")" (skip_spaces (skip_word (skip_spaces column)))) [
      | none ↦ false
      | some rest ↦ true
    ]
  ]
]

-- `test` of that expression: it may match anywhere.
unfoldable pub tests_hash : String → Bool
unfolding is_hash
tests_hash String.[] = false
tests_hash (String.◌∷◌ c s) = let rest = tests_hash s in is_hash (String.◌∷◌ c s) || rest

abbrev pub is_set : Option String → Bool
is_set none = false
is_set (some s) = truthy s

abbrev pub table_types : List String
table_types = "table" ∷ "view" ∷ "incremental" ∷ "inline" ∷ []

unfoldable pub snowflake_checks : String → SnowflakeOptions → List (Bool × String)
snowflake_checks type o =
    (o.secure && not (type == "view"), "The 'secure' option is only valid for Snowflake views")
    ∷ (
      o.transient && not (type == "table"),
      "The 'transient' option is only valid for Snowflake tables",
    )
    ∷ (
      not (is_empty o.cluster_by) && not (type == "table") && not (type == "incremental"),
      "The 'clusterBy' option is only valid for Snowflake tables",
    )
    ∷ []

unfoldable pub sql_data_warehouse_checks :
    (String → String) → List String → SqlDataWarehouseOptions → List (Bool × String)
unfolding template tests_hash
sql_data_warehouse_checks upper unique_key o =
    let distribution = upper o.distribution in
    (
      not (is_empty unique_key),
      "Merging using unique keys for SQLDataWarehouse has not yet been implemented",
    )
    ∷ (
      truthy o.distribution
          && not (distribution == "REPLICATE")
          && not (distribution == "ROUND_ROBIN")
          && not (tests_hash distribution),
      template ("Invalid value for sqldatawarehouse distribution: " ∷ distribution ∷ []),
    )
    ∷ []

-- `validatePropertyDefined`, of a text and of an array
abbrev pub property_defined : String → Option String → Bool × String
property_defined prop value = (
  elim value [ none ↦ true | some s ↦ false ],
  template ("Property \"" ∷ prop ∷ "\" is not defined" ∷ []),
)

abbrev pub array_defined : String → Option (List String) → Bool × String
array_defined prop value = (
  elim value [ none ↦ true | some xs ↦ is_empty xs ],
  template ("Property \"" ∷ prop ∷ "\" is not defined" ∷ []),
)

-- `validatePropertyValueInValues`
abbrev pub property_value_in_values : String → Option String → List String → Bool × String
property_value_in_values prop value values = (
  elim value [ none ↦ false | some s ↦ truthy s && not (includes values s) ],
  template (
      "Wrong value of \""
      ∷ prop
      ∷ "\" property. Should only use predefined values: "
      ∷ join_quoted values
      ∷ []),
)

unfoldable pub redshift_checks : RedshiftConfig → List (Bool × String)
unfolding template join_quoted includes
redshift_checks o =
    (if is_set o.dist_style || is_set o.dist_key
      then property_defined "distStyle" o.dist_style
        ∷ property_defined "distKey" o.dist_key
        ∷ property_value_in_values "distStyle" o.dist_style ("even" ∷ "key" ∷ "all" ∷ [])
        ∷ []
      else [])
    ++ (if is_set o.sort_style || elim o.sort_keys [ none ↦ false | some ks ↦ not (is_empty ks) ]
        then property_defined "sortStyle" o.sort_style
          ∷ array_defined "sortKeys" o.sort_keys
          ∷ property_value_in_values "sortStyle" o.sort_style ("compound" ∷ "interleaved" ∷ [])
          ∷ []
        else [])

unfoldable pub bigquery_checks : String → BigQueryOptions → List (Bool × String)
bigquery_checks type o =
    (
      (truthy o.partition_by || not (is_empty o.cluster_by)) && type == "view",
      "partitionBy/clusterBy are not valid for BigQuery views; they are only valid for tables",
    )
    ∷ []

-- `Table.IGNORED_PROPS`
unfoldable pub ignored_props : String → List String
ignored_props type =
    if type == "inline"
    then "bigquery" ∷ "redshift" ∷ "snowflake" ∷ "sqlDataWarehouse" ∷ "presto" ∷ "preOps"
      ∷ "postOps" ∷ "actionDescriptor" ∷ "disabled" ∷ "where" ∷ []
    else []

unfoldable pub table_checks : (String → String) → SessionAction → List (Bool × String)
unfolding template join_quoted includes snowflake_checks sql_data_warehouse_checks redshift_checks
    bigquery_checks ignored_props exists_or_is_non_empty
table_checks upper t =
    (
      truthy t.type && not (includes table_types t.type),
      template (
          "Wrong type of table detected. Should only use predefined types: "
          ∷ join_quoted table_types
          ∷ []),
    )
      ∷ elim t.options.snowflake [ none ↦ [] | some o ↦ snowflake_checks t.type o ]
    ++ elim t.options.sql_data_warehouse [
      | none ↦ []
      | some o ↦ sql_data_warehouse_checks upper t.options.unique_key o
    ]
    ++ elim t.options.redshift [ none ↦ [] | some o ↦ redshift_checks o ]
    ++ elim t.options.bigquery [ none ↦ [] | some o ↦ bigquery_checks t.type o ]
    ++ map
        (λ prop. (
          exists_or_is_non_empty (t.options.values prop),
          template (
              "Unused property was detected: \"" ∷ prop
              ∷ "\". This property is not used for tables with type \"" ∷ t.type
              ∷ "\" and will be ignored" ∷ []),
        ))
        (ignored_props t.type)

unfoldable pub check_table_config_validity :
    (String → String) → List SessionAction → List CompilationError
unfolding table_checks reports
check_table_config_validity upper [] = []
check_table_config_validity upper (t ∷ tables) =
    map (error_at t) (reports (table_checks upper t)) ++ check_table_config_validity upper tables
