-- ===== src/Session/Compile.antt =====
-- core/session.ts: `compile`. An action of the model is what its own `compile` leaves of it, so the
-- errors that this reports stand among those that the session has.
pub mod Consistent
mod Tests
use dataform.Prelude.{
  ℕ, String, Bool, true, false, ◌&&◌, List, [], ◌∷◌, ◌++◌, map, Option, none, some, if◌then◌else◌,
  filter, Result, ok, ◌>>=◌,
}
use dataform.Stringified.{Stringifier}
use dataform.Proto.{Target}
use dataform.Proto.Core.{SessionConfig}
use dataform.Session.{
  ActionClass, SessionAction, CompilationError, is_table, is_operation, is_assertion,
  is_declaration, compile_graph_chunk,
}
use dataform.Session.Linking.{fully_qualify_dependencies}
use dataform.Session.Altering.{alter_action_name}
use dataform.Session.Checks.{
  SessionTest, check_action_name_uniqueness, check_test_name_uniqueness,
  check_canonical_target_uniqueness, check_run_caching_correctness, check_circularity,
}
use dataform.Session.Tables.{check_table_config_validity}

-- The fields of `Session`, its configuration apart.
pub record SessionState : Type 0 where
  pub actions : List SessionAction
  pub tests : List SessionTest
  pub errors : List CompilationError

-- `CompiledGraph`
pub record CompiledSession : Type 0 where
  pub tables : List SessionAction
  pub operations : List SessionAction
  pub assertions : List SessionAction
  pub declarations : List SessionAction
  pub tests : List SessionTest
  pub errors : List CompilationError
  pub targets : List Target

-- What `compileGraphChunk` pushes for tests, and the errors that it reports.
unfoldable pub compile_tests : List SessionTest → List SessionTest × List CompilationError
compile_tests [] = ([], [])
compile_tests (t ∷ tests) =
    let (chunks, errors) = compile_tests tests in
    elim t.failure [
      | none ↦ (t ∷ chunks, errors)
      | some message ↦ (
        chunks,
        record { file_name = t.file_name; action_name = t.name; message = message } ∷ errors,
      )
    ]

-- The compiled actions of a class.
unfoldable pub chunk :
    (ActionClass → Bool) → List SessionAction → List SessionAction × List CompilationError
unfolding compile_graph_chunk
chunk is_class actions = compile_graph_chunk (filter (λ a. is_class a.class) actions)

abbrev pub of_class : (ActionClass → Bool) → List SessionAction → List SessionAction
of_class is_class actions = filter (λ a. is_class a.class) actions

-- What the compilation of the actions and tests of a session reports.
unfoldable pub compile_errors : SessionState → List CompilationError
unfolding chunk compile_tests
compile_errors s =
    s.errors
    ++ (chunk is_table s.actions).1
    ++ (chunk is_operation s.actions).1
    ++ (chunk is_assertion s.actions).1
    ++ (chunk is_declaration s.actions).1
    ++ (compile_tests s.tests).1

-- The calls that see the engine and other packages: `toUpperCase`, `JSON.stringify` and `getCycles`.
pub record Engine : Type 0 where
  pub normalize : String → String
  pub upper : String → String
  pub json : Target → String
  pub key : Stringifier Target
  pub get_cycles : List (String × List String) → List (List String)

module _ (engine : Engine) (config : SessionConfig) where
  -- The actions that `checkRunCachingCorrectness` sees.
  abbrev pub with_output : List SessionAction → List SessionAction
  with_output actions =
      of_class is_table actions
      ++ of_class is_assertion actions
      ++ filter (λ a. is_operation a.class && a.has_output) actions

  -- The checks of the compiled and renamed actions, in their order.
  unfoldable pub check_all :
      List SessionAction
      → List SessionAction
      → List SessionTest
      → List CompilationError
      → Result (List CompilationError)
  unfolding check_action_name_uniqueness check_test_name_uniqueness check_circularity
      check_canonical_target_uniqueness check_table_config_validity check_run_caching_correctness
  check_all altered declarations tests errors =
      check_circularity engine.get_cycles altered >>= λ circular. ok (
        errors
        ++ check_action_name_uniqueness (altered ++ declarations)
        ++ check_test_name_uniqueness tests
        ++ check_canonical_target_uniqueness engine.key engine.json (altered ++ declarations)
        ++ check_table_config_validity engine.upper (of_class is_table altered)
        ++ circular
        ++ (if config.use_run_cache
            then check_run_caching_correctness (with_output altered)
            else []))

  -- What is left of `compile` when the dependencies are qualified.
  unfoldable pub compile_linked :
      SessionState → List SessionAction → List CompilationError → Result CompiledSession
  unfolding alter_action_name check_all chunk compile_tests
  compile_linked s linked errors =
      let declarations = (chunk is_declaration linked).0 in
      let tests = (compile_tests s.tests).0 in
      alter_action_name engine.key engine.normalize config
        ((chunk is_table linked).0
          ++ (chunk is_assertion linked).0
          ++ (chunk is_operation linked).0)
        (map (λ a. a.target) declarations)
      >>= λ altered. check_all altered declarations tests errors >>= λ all. ok (record {
        tables = of_class is_table altered;
        operations = of_class is_operation altered;
        assertions = of_class is_assertion altered;
        declarations = declarations;
        tests = tests;
        errors = all;
        targets = map (λ a. a.target) s.actions;
      })

  unfoldable pub compile : ℕ → SessionState → Result CompiledSession
  unfolding compile_linked compile_errors fully_qualify_dependencies
  compile fuel s =
      fully_qualify_dependencies engine.normalize engine.json fuel s.actions (compile_errors s)
      >>= λ linked. compile_linked s linked.0 linked.1
