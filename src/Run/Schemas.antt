-- ===== src/Run/Schemas.antt =====
-- api/commands/run.ts: `prepareAllSchemas`. The schemas that a database has are a parameter, and the
-- calls that create schemas are listed in the order in which they are made for each database.
pub mod Laws
mod Tests
use dataform.Prelude.{
  String, Bool, true, false, not, ◌==◌, List, [], ◌∷◌, ◌++◌, map, if◌then◌else◌, filter, includes,
  add,
}
use dataform.Names.{truthy}
use dataform.Proto.{Target, ExecutionAction, ExecutionGraph}

-- `target.database || defaultDatabase`
abbrev pub true_database : String → Target → String
true_database default target = if truthy target.database then target.database else default

-- A schema that is noted for its database.
unfoldable pub add_schema :
    String → String → List (String × List String) → List (String × List String)
unfolding add
add_schema database schema [] = (database, schema ∷ []) ∷ []
add_schema database schema ((d, schemas) ∷ noted) =
    if d == database
    then (d, add schemas schema) ∷ noted
    else (d, schemas) ∷ add_schema database schema noted

unfoldable pub note_schemas :
    String → List ExecutionAction → List (String × List String) → List (String × List String)
unfolding add_schema
note_schemas default [] noted = noted
note_schemas default (a ∷ actions) noted = note_schemas default actions (
    if truthy a.target.schema
    then add_schema (true_database default a.target) a.target.schema noted
    else noted)

-- The calls of `createSchema`.
unfoldable pub missing_schemas :
    (String → List String) → List (String × List String) → List (String × String)
unfolding includes
missing_schemas existing [] = []
missing_schemas existing ((d, schemas) ∷ noted) =
    map (λ s. (d, s)) (filter (λ s. not (includes (existing d) s)) schemas)
    ++ missing_schemas existing noted

unfoldable pub prepare_all_schemas :
    (String → List String) → ExecutionGraph → List (String × String)
unfolding note_schemas missing_schemas
prepare_all_schemas existing graph =
    missing_schemas existing (note_schemas graph.project_config.default_database graph.actions [])
