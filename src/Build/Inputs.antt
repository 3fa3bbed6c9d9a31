-- ===== src/Build/Inputs.antt =====
-- api/utils/graphs.ts: `combineAllActions` and `actionsByTarget`, and api/commands/build.ts:
-- `computeAllTransitiveInputs`. The map that is filled on the way is passed on.
pub mod Sets
pub mod Relation
pub mod Laws
pub mod Lookup
pub mod Whole
pub mod Ending
mod Tests
use dataform.Prelude.{
  ℕ, zero, suc, String, Bool, true, false, ◌||◌, ◌&&◌, ◌==◌, List, [], ◌∷◌, ◌++◌, map, Option, none,
  some, if◌then◌else◌, Result, ok, throw, out_of_fuel, undefined_access, ◌>>=◌,
}
use dataform.Stringified.{
  Stringifier, StringifiedMap, StringifiedSet, map_of, get, has, set, set_of, add_value, values_of,
}
use dataform.Proto.{Target, Table, Operation, Assertion, Declaration, CompiledGraph}

pub data Action : Type 0 where
  table : Table → Action
  operation : Operation → Action
  assertion : Assertion → Action
  declaration : Declaration → Action

abbrev pub target_of : Action → Target
target_of (table t) = t.target
target_of (operation o) = o.target
target_of (assertion a) = a.target
target_of (declaration d) = d.target

-- `action.dependencyTargets || []`
abbrev pub dependency_targets_of : Action → List Target
dependency_targets_of (table t) = t.dependency_targets
dependency_targets_of (operation o) = o.dependency_targets
dependency_targets_of (assertion a) = a.dependency_targets
dependency_targets_of (declaration d) = []

unfoldable pub executed_actions : CompiledGraph → List Action
executed_actions g = map table g.tables ++ map operation g.operations ++ map assertion g.assertions

-- Every action has a target here.
unfoldable pub combine_all_actions : CompiledGraph → List Action
combine_all_actions g =
    map table g.tables
    ++ map operation g.operations
    ++ map assertion g.assertions
    ++ map declaration g.declarations

-- Its inputs are not followed: a table or incremental table, or a declaration.
abbrev pub is_source : Action → Bool
is_source (table t) = t.type == "table" || t.type == "incremental"
is_source (operation o) = false
is_source (assertion a) = false
is_source (declaration d) = true

abbrev pub Inputs : Type 0
Inputs = StringifiedMap StringifiedSet

module _ (key : Stringifier Target) where
  unfoldable pub actions_by_target : CompiledGraph → StringifiedMap Action
  unfolding map_of combine_all_actions
  actions_by_target g = map_of key (map (λ a. (target_of a, a)) (combine_all_actions g))

  -- The parsed members of a set are added to another one.
  unfoldable pub add_values : List Target → StringifiedSet → StringifiedSet
  unfolding add_value
  add_values [] s = s
  add_values (t ∷ targets) s = add_values targets (add_value key t s)

  module _ (by_target : StringifiedMap Action) where
    -- The loop over the dependency targets, with the recursive call as `recurse`.
    unfoldable pub add_inputs :
        (Action → Inputs → Result (StringifiedSet × Inputs))
        → List Target
        → StringifiedSet
        → Inputs
        → Result (StringifiedSet × Inputs)
    unfolding get add_value add_values values_of
    add_inputs recurse [] s memo = ok (s, memo)
    add_inputs recurse (t ∷ targets) s memo =
        let with_t = add_value key t s in
        elim (get key t by_target) [
          | none ↦ throw undefined_access
          | some a ↦
              if is_source a
              then add_inputs recurse targets with_t memo
              else recurse a memo >>= λ r.
                  add_inputs recurse targets (add_values (values_of key r.0) with_t) r.1
        ]

    -- `computeTransitiveInputsForAction`. The fuel bounds the depth of the calls.
    unfoldable pub compute_transitive_inputs_for_action :
        ℕ → Action → Inputs → Result (StringifiedSet × Inputs)
    unfolding get set add_inputs
    compute_transitive_inputs_for_action zero a memo = out_of_fuel
    compute_transitive_inputs_for_action (suc fuel) a memo = elim (get key (target_of a) memo) [
      | some known ↦ ok (known, memo)
      | none ↦ do
        found ←
            add_inputs (compute_transitive_inputs_for_action fuel) (dependency_targets_of a)
              (record { members = [] }) memo
        ok (found.0, set key (target_of a) found.0 found.1)
    ]

    -- The loop of `computeAllTransitiveInputs`.
    unfoldable pub compute_inputs_of : ℕ → List Action → Inputs → Result Inputs
    unfolding compute_transitive_inputs_for_action has set
    compute_inputs_of fuel [] memo = ok memo
    compute_inputs_of fuel (a ∷ actions) memo =
        if has key (target_of a) memo then compute_inputs_of fuel actions memo else do
          found ← compute_transitive_inputs_for_action fuel a memo
          compute_inputs_of fuel actions (set key (target_of a) found.0 found.1)

  -- `semver.gte(version, "1.6.11")` is the parameter `valid`.
  unfoldable pub compute_all_transitive_inputs : (String → Bool) → ℕ → CompiledGraph → Result Inputs
  unfolding compute_inputs_of actions_by_target executed_actions
  compute_all_transitive_inputs valid fuel g =
      if g.dataform_core_version == ""
      then ok (record { entries = [] })
      else if valid g.dataform_core_version
      then compute_inputs_of (actions_by_target g) fuel (executed_actions g)
          (record { entries = [] })
      else ok (record { entries = [] })
