-- ===== src/Session.antt =====
-- core/session.ts and core/utils.ts: the actions of a session, how they are found, and the errors that
-- a session collects. What evaluates the user's code, `compile` of an action, is taken as the error
-- that it throws, if it throws one. The adapter of the session's warehouse is a parameter.
pub mod Linking
pub mod Altering
pub mod Checks
pub mod Sqlx
pub mod Tables
pub mod Compile
mod Tests
use dataform.Prelude.{
  String, Bool, true, false, not, ◌&&◌, ◌==◌, List, [], ◌∷◌, ◌++◌, map, Option, none, some,
  if◌then◌else◌, filter,
}
use dataform.Prelude.Text.{template, join, or_else}
use dataform.Names.{truthy, target_to_name}
use dataform.Proto.{Target, ActionHermeticity}
use dataform.Proto.Core.{SessionConfig, TableOptions}
use dataform.Adapters.{Adapter}

-- The class of an action.
pub data ActionClass : Type 0 where
  table operation assertion declaration : ActionClass

-- An action with its `proto`. `type` is that of a table. `failure` is the message of the error that
-- its `compile` throws.
pub record SessionAction : Type 0 where
  pub class : ActionClass
  pub name : String
  pub target : Target
  pub canonical_target : Target
  pub file_name : String
  pub type : String
  pub query : String
  pub has_output : Bool
  pub hermeticity : ActionHermeticity
  pub dependency_targets : List Target
  pub dependencies : List String
  pub parent_action : Option Target
  pub options : TableOptions
  pub failure : Option String

pub record CompilationError : Type 0 where
  pub file_name : String
  pub action_name : String
  pub message : String

abbrev pub is_table : ActionClass → Bool
is_table ActionClass.table = true
is_table _ = false

abbrev pub is_operation : ActionClass → Bool
is_operation ActionClass.operation = true
is_operation _ = false

abbrev pub is_assertion : ActionClass → Bool
is_assertion ActionClass.assertion = true
is_assertion _ = false

abbrev pub is_declaration : ActionClass → Bool
is_declaration ActionClass.declaration = true
is_declaration _ = false

-- A table of type "inline".
abbrev pub is_inline : SessionAction → Bool
is_inline a = is_table a.class && a.type == "inline"

-- `compileError` with a path
abbrev pub error_at : SessionAction → String → CompilationError
error_at a message = record { file_name = a.file_name; action_name = a.name; message = message }

-- What `compileGraphChunk` pushes, and the errors that it reports.
unfoldable pub compile_graph_chunk : List SessionAction → List SessionAction × List CompilationError
compile_graph_chunk [] = ([], [])
compile_graph_chunk (a ∷ actions) =
    let (chunks, errors) = compile_graph_chunk actions in
    elim a.failure [
      | none ↦ (a ∷ chunks, errors)
      | some message ↦ (chunks, error_at a message ∷ errors)
    ]

-- `ambiguousActionNameMsg`, of actions
unfoldable pub ambiguous_message : String → List SessionAction → String
unfolding template join
ambiguous_message shown found = template (
    "Ambiguous Action name: "
    ∷ shown
    ∷ ". Did you mean one of: "
    ∷ join ", " (map (λ a. template (a.target.schema ∷ "." ∷ a.target.name ∷ [])) found)
    ∷ "."
    ∷ [])

module _ (normalize : String → String) where
  -- `target`
  unfoldable pub target_in : SessionConfig → String → String → String → Target
  target_in config name schema database =
      let schema_or = or_else schema config.default_schema in
      let database_or = or_else database config.default_database in
      record {
        database = if truthy database_or then normalize database_or else "";
        schema = if truthy schema_or then normalize schema_or else "";
        name = normalize name;
      }

  -- `setNameAndTarget`
  unfoldable pub set_name_and_target :
      SessionConfig → SessionConfig → SessionAction → String → String → String → SessionAction
  unfolding target_in target_to_name
  set_name_and_target config canonical a name schema database =
      let target = target_in config name schema database in
      record a {
        target = target;
        canonical_target = target_in canonical name schema database;
        name = target_to_name target;
      }

  -- Whether `findActions` keeps the action.
  unfoldable pub is_found : Target → SessionAction → Bool
  is_found t a =
      if truthy t.database && not (a.target.database == normalize t.database)
      then false
      else if truthy t.schema && not (a.target.schema == normalize t.schema)
      then false
      else a.target.name == normalize t.name

  unfoldable pub find_actions : Target → List SessionAction → List SessionAction
  unfolding is_found
  find_actions t actions = filter (is_found t) actions

-- `getDatabaseSuffixWithUnderscore` and its siblings
abbrev pub database_suffix : SessionConfig → String
database_suffix config =
    if truthy config.database_suffix then template ("_" ∷ config.database_suffix ∷ []) else ""

abbrev pub schema_suffix : SessionConfig → String
schema_suffix config =
    if truthy config.schema_suffix then template ("_" ∷ config.schema_suffix ∷ []) else ""

abbrev pub table_prefix : SessionConfig → String
table_prefix config =
    if truthy config.table_prefix then template (config.table_prefix ∷ "_" ∷ []) else ""

-- The target of an action as it will stand in the warehouse, in `resolve` and `alterActionName`.
unfoldable pub altered_target : (String → String) → SessionConfig → Target → Target
unfolding template
altered_target normalize config t = record {
  database =
      if truthy t.database
      then normalize (template (t.database ∷ database_suffix config ∷ []))
      else t.database;
  schema = normalize (template (t.schema ∷ schema_suffix config ∷ []));
  name = normalize (template (table_prefix config ∷ t.name ∷ []));
}

-- What `resolve` is given: a name, or an object.
pub data Resolvable : Type 0 where
  named : String → Resolvable
  object : Target → Resolvable

-- `resolvableAsTarget`
abbrev pub resolvable_as_target : Resolvable → Target
resolvable_as_target (named name) = record { database = ""; schema = ""; name = name }
resolvable_as_target (object t) = t

module _ (adapter : Adapter) (config : SessionConfig) (json : Target → String) where
  -- `stringifyResolvable`, with `JSON.stringify` as `json`
  abbrev pub shown_resolvable : Resolvable → String
  shown_resolvable (named name) = name
  shown_resolvable (object t) = json t

  -- What `resolve` gives where no action is found. An object's schema that is not set is shown as
  -- "undefined" in the template literal.
  unfoldable pub resolve_unknown : Resolvable → String
  unfolding target_in template
  resolve_unknown (named name) = adapter.resolve_target (
      target_in adapter.normalize_identifier config
        (adapter.normalize_identifier (template (table_prefix config ∷ name ∷ [])))
        (adapter.normalize_identifier
          (template (config.default_schema ∷ schema_suffix config ∷ [])))
        (if truthy config.default_database
          then adapter.normalize_identifier
              (template (config.default_database ∷ database_suffix config ∷ []))
          else ""))
  resolve_unknown (object t) = adapter.resolve_target (
      target_in adapter.normalize_identifier config
        (adapter.normalize_identifier (template (table_prefix config ∷ t.name ∷ [])))
        (adapter.normalize_identifier
          (template (or_else t.schema "undefined" ∷ schema_suffix config ∷ [])))
        (if truthy t.database
          then adapter.normalize_identifier (template (t.database ∷ database_suffix config ∷ []))
          else ""))

  -- What `resolve` gives for an action.
  unfoldable pub resolve_action : SessionAction → String
  unfolding altered_target template
  resolve_action a =
      if is_inline a
      then template ("(" ∷ a.query ∷ ")" ∷ [])
      else if is_declaration a.class
      then adapter.resolve_target a.target
      else adapter.resolve_target (altered_target adapter.normalize_identifier config a.target)

  -- `resolve`: the text, and the messages of the errors that it reports.
  unfoldable pub resolve_found : Resolvable → List SessionAction → String × List String
  unfolding resolve_unknown resolve_action ambiguous_message
  resolve_found ref [] = (resolve_unknown ref, [])
  resolve_found ref (a ∷ more) = (
    resolve_action a,
    elim more [
      | [] ↦ []
      | b ∷ others ↦ ambiguous_message (shown_resolvable ref) (a ∷ b ∷ others) ∷ []
    ]
        ++ (if is_operation a.class && not a.has_output
            then "Actions cannot resolve operations which do not produce output." ∷ []
            else []),
  )

  unfoldable pub resolve : Resolvable → List SessionAction → String × List String
  unfolding resolve_found find_actions
  resolve ref actions =
      resolve_found ref
        (find_actions adapter.normalize_identifier (resolvable_as_target ref) actions)
