-- ===== src/Session/Linking.antt =====
-- core/session.ts: `fullyQualifyDependencies`. The actions are the objects that `findActions` looks
-- through too, so they are changed in the list of the session's actions, by their place in it.
pub mod Reached
pub mod Sound
pub mod Ending
use dataform.Prelude.{
  ℕ, zero, suc, String, Bool, true, false, ◌&&◌, List, [], ◌∷◌, ◌++◌, map, Option, none, some,
  if◌then◌else◌, nat_eq, Result, ok, out_of_fuel, ◌>>=◌,
}
use dataform.Prelude.Text.{template}
use dataform.Stringified.{set_entry}
use dataform.Proto.{Target}
use dataform.Session.{
  ActionClass, SessionAction, CompilationError, is_table, is_operation, is_assertion, is_inline,
  error_at, ambiguous_message, is_found,
}

-- The actions found for a dependency, with their places.
abbrev pub Found : Type 0
Found = List (ℕ × SessionAction)

-- What a dependency leads to.
pub data Meaning : Type 0 where
  missing : Meaning
  ambiguous : List SessionAction → Meaning
  inlined : List Target → Meaning
  qualified : String → Target → Meaning

-- The objects of JavaScript by name, in order of insertion.
abbrev pub Qualified : Type 0
Qualified = List (String × Target)

module _ (normalize : String → String) where
  unfoldable pub find_from : ℕ → Target → List SessionAction → Found
  unfolding is_found
  find_from i t [] = []
  find_from i t (a ∷ actions) =
      let rest = find_from (suc i) t actions in
      if is_found normalize t a then (i, a) ∷ rest else rest

-- `whole` is the list of the action that is linked, as it has grown; an inline table that is this
-- action itself is read from it.
unfoldable pub meaning_of : ℕ → List Target → Found → Meaning
meaning_of self whole [] = missing
meaning_of self whole ((i, a) ∷ []) =
    if is_inline a
    then inlined (if nat_eq i self then whole else a.dependency_targets)
    else qualified a.name a.target
meaning_of self whole ((i, a) ∷ (j, b) ∷ more) = ambiguous (a ∷ b ∷ map (λ p. p.1) more)

module _ (normalize : String → String) (json : Target → String) (actions : List SessionAction)
    (self : ℕ) (own : SessionAction) where
  abbrev pub missing_error : Target → CompilationError
  missing_error d = error_at own (
      template (
        "Missing dependency detected: Action \""
        ∷ own.name
        ∷ "\" depends on \""
        ∷ json d
        ∷ "\" which does not exist"
        ∷ []))

  abbrev pub ambiguous_error : Target → List SessionAction → CompilationError
  ambiguous_error d found = error_at own (ambiguous_message (json d) found)

  -- What the loop does with a dependency before it goes on.
  unfoldable pub after :
      (List Target
        → List Target
        → Qualified
        → List CompilationError
        → Result (Qualified × List CompilationError))
      → Target
      → List Target
      → List Target
      → Qualified
      → List CompilationError
      → Meaning
      → Result (Qualified × List CompilationError)
  unfolding set_entry
  after go_on d queue whole found errors missing =
      go_on queue whole found (errors ++ missing_error d ∷ [])
  after go_on d queue whole found errors (ambiguous several) =
      go_on queue whole found (errors ++ ambiguous_error d several ∷ [])
  after go_on d queue whole found errors (inlined more) =
      go_on (queue ++ more) (whole ++ more) found errors
  after go_on d queue whole found errors (qualified name target) =
      go_on queue whole (set_entry name target found) errors

  -- The loop over `action.dependencyTargets`, to which the loop itself pushes: `queue` is what is left
  -- of it.
  unfoldable pub qualify_from :
      ℕ
      → List Target
      → List Target
      → Qualified
      → List CompilationError
      → Result (Qualified × List CompilationError)
  unfolding after meaning_of find_from
  qualify_from zero queue whole found errors = out_of_fuel
  qualify_from (suc fuel) [] whole found errors = ok (found, errors)
  qualify_from (suc fuel) (d ∷ queue) whole found errors =
      after (qualify_from fuel) d queue whole found errors
        (meaning_of self whole (find_from normalize 0 d actions))

-- An action with its dependencies as the loop has found them.
abbrev pub with_dependencies : Qualified → SessionAction → SessionAction
with_dependencies found a = record a {
  dependencies = map (λ e. e.0) found;
  dependency_targets = map (λ e. e.1) found;
}

unfoldable pub get_elem? : List SessionAction → ℕ → Option SessionAction
get_elem? [] i = none
get_elem? (a ∷ actions) zero = some a
get_elem? (a ∷ actions) (suc i) = get_elem? actions i

unfoldable pub set_elem : List SessionAction → ℕ → SessionAction → List SessionAction
set_elem [] i b = []
set_elem (a ∷ actions) zero b = b ∷ actions
set_elem (a ∷ actions) (suc i) b = a ∷ set_elem actions i b

-- The places of the compiled actions of a class.
unfoldable pub places_of : (ActionClass → Bool) → ℕ → List SessionAction → List ℕ
places_of chosen i [] = []
places_of chosen i (a ∷ actions) =
    let rest = places_of chosen (suc i) actions in
    let compiled : Bool = elim a.failure [ none ↦ true | some message ↦ false ] in
    if chosen a.class && compiled then i ∷ rest else rest

abbrev pub Linked : Type 0
Linked = List SessionAction × List CompilationError

module _ (normalize : String → String) (json : Target → String) (fuel : ℕ) where
  -- The body of the outer loop.
  unfoldable pub qualify_one : ℕ → List SessionAction → List CompilationError → Result Linked
  unfolding qualify_from get_elem? set_elem
  qualify_one i actions errors = elim (get_elem? actions i) [
    | none ↦ ok (actions, errors)
    | some a ↦ do
      (found, errors') ←
          qualify_from normalize json actions i a fuel a.dependency_targets a.dependency_targets []
            errors
      ok (set_elem actions i (with_dependencies found a), errors')
  ]

  unfoldable pub qualify_all : List ℕ → List SessionAction → List CompilationError → Result Linked
  unfolding qualify_one
  qualify_all [] actions errors = ok (actions, errors)
  qualify_all (i ∷ places) actions errors = do
    (actions', errors') ← qualify_one i actions errors
    qualify_all places actions' errors'

  -- `fullyQualifyDependencies`, of the tables, assertions and operations of the compiled graph
  unfoldable pub fully_qualify_dependencies :
      List SessionAction → List CompilationError → Result Linked
  unfolding qualify_all places_of
  fully_qualify_dependencies actions errors =
      qualify_all
        (places_of is_table 0 actions
          ++ places_of is_assertion 0 actions
          ++ places_of is_operation 0 actions)
        actions errors
