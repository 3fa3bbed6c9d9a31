-- ===== src/Proto/Core.antt =====
-- protos/core.proto: the messages that core/ builds and reads, with the fields that it reads. `where`
-- of a table is `condition` here.
use dataform.Prelude.{String, Bool, List, Option}
use dataform.Proto.{Target, TableKind}

-- `ProjectConfig`
pub record SessionConfig : Type 0 where
  pub warehouse : String
  pub default_database : String
  pub default_schema : String
  pub assertion_schema : String
  pub database_suffix : String
  pub schema_suffix : String
  pub table_prefix : String
  pub use_run_cache : Bool

-- `bind` is absent where the object has no such property of its own.
pub record RedshiftOptions : Type 0 where
  pub dist_key : String
  pub dist_style : String
  pub sort_keys : List String
  pub sort_style : String
  pub bind : Option Bool

pub record SnowflakeOptions : Type 0 where
  pub secure : Bool
  pub transient : Bool
  pub cluster_by : List String

pub record BigQueryOptions : Type 0 where
  pub partition_by : String
  pub cluster_by : List String
  pub update_partition_filter : String

pub record SqlDataWarehouseOptions : Type 0 where
  pub distribution : String

pub record PrestoOptions : Type 0 where
  pub partition_by : List String

-- `Table`, with what it says of the dataset.
pub record TableProto : Type 0 where
  pub target : Target
  pub type : String
  pub query : String
  pub incremental_query : String
  pub condition : String
  pub unique_key : List String
  pub pre_ops : List String
  pub post_ops : List String
  pub incremental_pre_ops : List String
  pub incremental_post_ops : List String
  pub redshift : Option RedshiftOptions
  pub snowflake : Option SnowflakeOptions
  pub bigquery : Option BigQueryOptions
  pub sql_data_warehouse : Option SqlDataWarehouseOptions
  pub presto : Option PrestoOptions

-- `Assertion`
pub record AssertionProto : Type 0 where
  pub target : Option Target
  pub name : String
  pub query : String

-- `TableMetadata`, with the names of its fields.
pub record ExistingTable : Type 0 where
  pub kind : TableKind
  pub fields : List String

-- The options for Redshift, absent where the object has no such property of its own.
pub record RedshiftConfig : Type 0 where
  pub dist_style : Option String
  pub dist_key : Option String
  pub sort_style : Option String
  pub sort_keys : Option (List String)

-- What a property of a table holds: an object is the list of its keys.
pub data Value : Type 0 where
  undefined : Value
  text : String → Value
  flag : Bool → Value
  array : List String → Value
  object : List String → Value

-- The options of a table that compilation checks, with `values` for its properties by name.
pub record TableOptions : Type 0 where
  pub unique_key : List String
  pub snowflake : Option SnowflakeOptions
  pub sql_data_warehouse : Option SqlDataWarehouseOptions
  pub redshift : Option RedshiftConfig
  pub bigquery : Option BigQueryOptions
  pub values : String → Value
