-- ===== src/Prune.antt =====
-- api/commands/prune.ts: which actions of a compiled graph a run is restricted to.
-- A JavaScript set of names is the list of its members in order of insertion, and the array that the
-- loops pop from has its last element at the head.
pub mod Worklist
pub mod Edges
pub mod Selection
pub mod Outcome
pub mod Kept
mod Tests
use dataform.Prelude.{
  reverse, ℕ, zero, suc, ◌+◌, String, Bool, true, false, not, ◌||◌, ◌&&◌, ◌==◌, List, [], ◌∷◌, ◌++◌,
  map, Option, none, some, if◌then◌else◌, ltb, length, filter, any, includes, add, add_all, Result,
  ok, throw, out_of_fuel, undefined_access, ◌>>=◌,
}
use dataform.Proto.{Target, Table, Operation, Assertion, CompiledGraph, RunConfig}
use dataform.Names.{match_patterns, target_to_name}
use dataform.Prune.Worklist.{expand}

pub data CompileAction : Type 0 where
  table : Table → CompileAction
  operation : Operation → CompileAction
  assertion : Assertion → CompileAction

abbrev pub name_of : CompileAction → String
name_of (table t) = t.name
name_of (operation o) = o.name
name_of (assertion a) = a.name

abbrev pub tags_of : CompileAction → List String
tags_of (table t) = t.tags
tags_of (operation o) = o.tags
tags_of (assertion a) = a.tags

abbrev pub dependencies_of : CompileAction → List String
dependencies_of (table t) = t.dependencies
dependencies_of (operation o) = o.dependencies
dependencies_of (assertion a) = a.dependencies

-- `allActions`: every action but the inline tables.
unfoldable pub all_actions : CompiledGraph → List CompileAction
all_actions g =
    map table (filter (λ t. not (t.type == "inline")) g.tables)
    ++ map operation g.operations
    ++ map assertion g.assertions

-- `allActionsByName[name]`: of two actions with one name the later one stays.
unfoldable pub action_by_name : List CompileAction → String → Option CompileAction
action_by_name [] name = none
action_by_name (a ∷ actions) name = elim (action_by_name actions name) [
  | some later ↦ some later
  | none ↦ if name_of a == name then some a else none
]

abbrev pub all_action_names : CompiledGraph → List String
all_action_names g = map name_of (all_actions g)

-- In the first loop: the names that an action's dependencies match.
unfoldable pub dependency_names : CompiledGraph → String → Result (List String)
unfolding action_by_name all_actions
dependency_names g name = elim (action_by_name (all_actions g) name) [
  | none ↦ throw undefined_access
  | some action ↦
      if ltb 0 (length (dependencies_of action))
      then match_patterns (dependencies_of action) (all_action_names g)
      else ok []
]

-- In the second loop: the actions one of whose dependencies the name matches.
unfoldable pub dependents : List CompileAction → String → Result (List String)
dependents [] name = ok []
dependents (action ∷ actions) name = do
  found ← match_patterns (name ∷ []) (dependencies_of action)
  rest ← dependents actions name
  ok (if ltb 0 (length found) then name_of action ∷ rest else rest)

unfoldable pub dependent_names : CompiledGraph → String → Result (List String)
unfolding dependents all_actions
dependent_names g name = dependents (all_actions g) name

abbrev pub has_action_selector : RunConfig → Bool
has_action_selector c = ltb 0 (length c.actions)

abbrev pub has_tag_selector : RunConfig → Bool
has_tag_selector c = ltb 0 (length c.tags)

-- `action.tags.some(tag => runConfig.tags.includes(tag))`
abbrev pub is_tagged : RunConfig → CompileAction → Bool
is_tagged c action = any (λ tag. includes c.tags tag) (tags_of action)

-- The actions that the selectors name.
unfoldable pub select_actions : CompiledGraph → RunConfig → Result (List String)
unfolding all_actions includes add_all
select_actions g c = do
  named ← (if has_action_selector c then match_patterns c.actions (all_action_names g) else ok [])
  let tagged = if has_tag_selector c then map name_of (filter (is_tagged c) (all_actions g)) else []
  ok (add_all (add_all [] named) tagged)

-- One of the two loops: the array is the spread of the set. Every name is pushed at most once, so the
-- names and the starting queue bound the rounds.
unfoldable pub expand_from :
    CompiledGraph → (String → Result (List String)) → List String → Result (List String)
unfolding expand all_actions
expand_from g neighbours included =
    expand neighbours (length (reverse included) + length (all_action_names g)) (reverse included)
      included

-- The two loops.
unfoldable pub expand_selection : CompiledGraph → RunConfig → List String → Result (List String)
unfolding expand_from dependency_names dependent_names
expand_selection g c included = do
  above ←
      (if c.include_dependencies then expand_from g (dependency_names g) included else ok included)
  if c.include_dependents then expand_from g (dependent_names g) above else ok above

-- Assertions on a kept action are kept, in the order of the assertions.
unfoldable pub add_auto_assertion : List String → Assertion → List String
unfolding includes add
add_auto_assertion included a = elim a.parent_action [
  | none ↦ included
  | some parent ↦
      if includes included (target_to_name parent)
      then add included (target_to_name a.target)
      else included
]

unfoldable pub add_auto_assertions : List String → List Assertion → List String
unfolding add_auto_assertion
add_auto_assertions included [] = included
add_auto_assertions included (a ∷ assertions) =
    add_auto_assertions (add_auto_assertion included a) assertions

unfoldable pub compute_included_action_names : CompiledGraph → RunConfig → Result (List String)
unfolding select_actions expand_selection add_auto_assertions
compute_included_action_names g c =
    if not (has_action_selector c) && not (has_tag_selector c)
    then ok (add_all [] (all_action_names g))
    else do
      selected ← select_actions g c
      expanded ← expand_selection g c selected
      ok (add_auto_assertions expanded g.assertions)

unfoldable pub prune : CompiledGraph → RunConfig → Result CompiledGraph
unfolding compute_included_action_names
prune g c = do
  included ← compute_included_action_names g c
  ok (record g {
    tables = filter (λ t. includes included t.name) g.tables;
    operations = filter (λ o. includes included o.name) g.operations;
    assertions = filter (λ a. includes included a.name) g.assertions;
  })
