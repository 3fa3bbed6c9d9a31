-- ===== src/Proto.antt =====
-- protos/core.proto: the messages that the modelled code reads, with the fields that it reads. A field
-- that is not set reads as its default, so an unset string is "" and an unset list is empty.
pub mod Core
use dataform.Prelude.{ℕ, String, Bool, List, Option}

pub record Target : Type 0 where
  pub database : String
  pub schema : String
  pub name : String

pub record Table : Type 0 where
  pub target : Target
  pub name : String
  pub type : String
  pub tags : List String
  pub dependencies : List String
  pub dependency_targets : List Target

pub record Operation : Type 0 where
  pub target : Target
  pub name : String
  pub tags : List String
  pub dependencies : List String
  pub dependency_targets : List Target
  pub queries : List String
  pub disabled : Bool

pub record Assertion : Type 0 where
  pub target : Target
  pub name : String
  pub tags : List String
  pub dependencies : List String
  pub dependency_targets : List Target
  pub parent_action : Option Target

pub record Declaration : Type 0 where
  pub target : Target

pub record CompiledGraph : Type 0 where
  pub tables : List Table
  pub operations : List Operation
  pub assertions : List Assertion
  pub declarations : List Declaration
  pub dataform_core_version : String

pub record RunConfig : Type 0 where
  pub actions : List String
  pub tags : List String
  pub include_dependencies : Bool
  pub include_dependents : Bool

-- `ActionResult.ExecutionStatus`
pub data ActionStatus : Type 0 where
  unknown running successful failed skipped disabled cancelled cache_skipped : ActionStatus

-- `TaskResult.ExecutionStatus`
pub data TaskStatus : Type 0 where
  unknown running successful failed skipped cancelled : TaskStatus

-- `RunResult.ExecutionStatus`
pub data RunStatus : Type 0 where
  unknown running successful failed cancelled timed_out : RunStatus

-- `TableMetadata.Type`
pub data TableKind : Type 0 where
  unknown table view : TableKind

pub data ActionHermeticity : Type 0 where
  unknown hermetic non_hermetic : ActionHermeticity

pub record TableMetadata : Type 0 where
  pub target : Target
  pub kind : TableKind
  pub last_updated_millis : ℕ
  pub has_streaming_buffer : Bool

pub record ExecutionTask : Type 0 where
  pub type : String
  pub statement : String

pub record ExecutionAction : Type 0 where
  pub name : String
  pub target : Target
  pub type : String
  pub table_type : String
  pub dependencies : List String
  pub transitive_inputs : List Target
  pub hermeticity : ActionHermeticity
  pub tasks : List ExecutionTask
  -- whether `actionDescriptor` is set
  pub has_descriptor : Bool

pub record TaskResult : Type 0 where
  pub status : TaskStatus
  pub error_message : String

-- `ActionResult.Input`: the time is absent where the metadata could not be found.
pub record ActionInput : Type 0 where
  pub target : Target
  pub last_modified_millis : Option ℕ

pub record ActionResult : Type 0 where
  pub name : String
  pub target : Target
  pub inputs : List ActionInput
  pub status : ActionStatus
  pub tasks : List TaskResult
  pub post_execution_millis : ℕ

pub record ProjectConfig : Type 0 where
  pub warehouse : String
  pub default_database : String
  pub idempotent_action_retries : ℕ
  pub use_run_cache : Bool

-- `runConfig` is the part that a run reads.
pub record ExecutionGraph : Type 0 where
  pub project_config : ProjectConfig
  pub use_run_cache : Bool
  pub disable_set_metadata : Bool
  pub tables : List TableMetadata
  pub declaration_targets : List Target
  pub actions : List ExecutionAction
