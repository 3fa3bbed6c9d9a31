-- ===== src/Session/Checks.antt =====
-- core/session.ts: the checks that `compile` makes of its graph.
pub mod Unique
use dataform.Prelude.{
  String, Bool, true, false, List, [], ◌∷◌, ◌++◌, map, Option, none, some, if◌then◌else◌, ◌==◌,
  filter, includes, Result, ok, throw, undefined_access, ◌>>=◌,
}
use dataform.Prelude.Text.{template, join}
use dataform.Stringified.{Stringifier, StringifiedMap, has, set}
use dataform.Proto.{Target, ActionHermeticity}
use dataform.Session.{SessionAction, CompilationError, error_at}

-- A test with what `compile` of the session reads of it, and the error that its own `compile` throws.
pub record SessionTest : Type 0 where
  pub name : String
  pub file_name : String
  pub failure : Option String

-- The loop of the two checks of names: an error for each item whose name an earlier one has.
unfoldable pub repeated_errors {ℓ} :
    {A : Type ℓ}
    → (A → String)
    → (A → CompilationError)
    → List String
    → List A
    → List CompilationError
unfolding includes
repeated_errors name error seen [] = []
repeated_errors name error seen (x ∷ xs) =
    (if includes seen (name x) then error x ∷ [] else [])
    ++ repeated_errors name error (seen ++ name x ∷ []) xs

unfoldable pub check_action_name_uniqueness : List SessionAction → List CompilationError
unfolding repeated_errors
check_action_name_uniqueness actions =
    repeated_errors (λ a. a.name)
      (λ a.
        error_at a
          "Duplicate action name detected. Names within a schema must be unique across tables, declarations, assertions, and operations")
      [] actions

unfoldable pub check_test_name_uniqueness : List SessionTest → List CompilationError
unfolding repeated_errors template
check_test_name_uniqueness tests =
    repeated_errors (λ t. t.name)
      (λ t. record {
        file_name = t.file_name;
        action_name = t.name;
        message = template ("Duplicate test name detected: \"" ∷ t.name ∷ "\"" ∷ []);
      })
      [] tests

module _ (key : Stringifier Target) (json : Target → String) where
  abbrev pub canonical_error : SessionAction → CompilationError
  canonical_error a = error_at a (
      template (
        "Duplicate canonical target detected. Canonical targets must be unique across tables, declarations, assertions, and operations:\n\""
        ∷ json a.canonical_target
        ∷ "\""
        ∷ []))

  unfoldable pub canonical_errors : StringifiedMap Bool → List SessionAction → List CompilationError
  unfolding has set
  canonical_errors seen [] = []
  canonical_errors seen (a ∷ actions) =
      (if has key a.canonical_target seen then canonical_error a ∷ [] else [])
      ++ canonical_errors (set key a.canonical_target true seen) actions

  unfoldable pub check_canonical_target_uniqueness : List SessionAction → List CompilationError
  unfolding canonical_errors
  check_canonical_target_uniqueness actions = canonical_errors (record { entries = [] }) actions

abbrev pub is_explicit : ActionHermeticity → Bool
is_explicit ActionHermeticity.hermetic = true
is_explicit ActionHermeticity.non_hermetic = true
is_explicit ActionHermeticity.unknown = false

abbrev pub has_dependencies : SessionAction → Bool
has_dependencies a = elim a.dependencies [ [] ↦ false | d ∷ ds ↦ true ]

unfoldable pub check_run_caching_correctness : List SessionAction → List CompilationError
check_run_caching_correctness [] = []
check_run_caching_correctness (a ∷ actions) =
    (if has_dependencies a
      then []
      else if is_explicit a.hermeticity
      then []
      else error_at a
          "Zero-dependency actions which create datasets are required to explicitly declare 'hermetic: (true|false)' when run caching is turned on."
        ∷ [])
    ++ check_run_caching_correctness actions

-- `keyByName`: of two actions with one name the later is kept.
unfoldable pub key_by_name : String → List SessionAction → Option SessionAction
key_by_name name [] = none
key_by_name name (a ∷ actions) = elim (key_by_name name actions) [
  | some later ↦ some later
  | none ↦ if a.name == name then some a else none
]

-- A vertex of the graph that is given to `tarjan-graph`.
abbrev pub vertex_of : List SessionAction → SessionAction → String × List String
vertex_of actions a = (
  a.name,
  filter (λ d. elim (key_by_name d actions) [ none ↦ false | some b ↦ true ]) a.dependencies,
)

-- The error of a cycle, given by the names of its vertices.

unfoldable pub cycle_error : List SessionAction → List String → Result CompilationError
unfolding key_by_name template join
cycle_error actions [] = throw undefined_access
cycle_error actions (first ∷ names) = elim (key_by_name first actions) [
  | none ↦ throw undefined_access
  | some a ↦ ok (record {
    file_name = a.file_name;
    action_name = "";
    message = template (
        "Circular dependency detected in chain: ["
        ∷ join " > " (first ∷ names)
        ∷ " > "
        ∷ a.name
        ∷ "]"
        ∷ []);
  })
]

unfoldable pub cycle_errors :
    List SessionAction → List (List String) → Result (List CompilationError)
unfolding cycle_error
cycle_errors actions [] = ok []
cycle_errors actions (cycle ∷ cycles) = do
  error ← cycle_error actions cycle
  errors ← cycle_errors actions cycles
  ok (error ∷ errors)

-- `checkCircularity`, with `getCycles` of `tarjan-graph` as a parameter.
unfoldable pub check_circularity :
    (List (String × List String) → List (List String))
    → List SessionAction
    → Result (List CompilationError)
unfolding cycle_errors key_by_name
check_circularity get_cycles actions =
    cycle_errors actions (get_cycles (map (vertex_of actions) actions))
