-- ===== src/Session/Altering.antt =====
-- core/session.ts: `alterActionName`, which puts the prefix and the suffixes of the project to the
-- names of its actions. Its map is a `StringifiedMap` of targets by target.
pub mod Renaming
mod Tests
use dataform.Prelude.{
  String, Bool, ◌||◌, List, [], ◌∷◌, map, Option, none, some, if◌then◌else◌, Result, ok, throw,
  undefined_access, ◌>>=◌,
}
use dataform.Stringified.{Stringifier, StringifiedMap, get, set}
use dataform.Names.{truthy, target_to_name}
use dataform.Proto.{Target}
use dataform.Proto.Core.{SessionConfig}
use dataform.Session.{SessionAction, altered_target}

-- `action.target = …` and `action.name = …`, with what the map gives; `undefined` has no name.
abbrev pub with_target : Option Target → SessionAction → Result SessionAction
with_target none a = throw undefined_access
with_target (some t) a = ok (record a { target = t; name = target_to_name t })

-- Whether the project changes names at all.
abbrev pub has_affixes : SessionConfig → Bool
has_affixes config =
    truthy config.table_prefix || truthy config.schema_suffix || truthy config.database_suffix

module _ (key : Stringifier Target) where
  -- The loop over the targets of declarations.
  unfoldable pub set_declarations : StringifiedMap Target → List Target → StringifiedMap Target
  unfolding set
  set_declarations targets [] = targets
  set_declarations targets (t ∷ declarations) = set_declarations (set key t t targets) declarations

  -- `dependencyTargets.map(…)` with the names of what it gives.
  unfoldable pub get_all : StringifiedMap Target → List Target → Result (List Target)
  unfolding get
  get_all targets [] = ok []
  get_all targets (d ∷ dependencies) = do
    rest ← get_all targets dependencies
    elim (get key d targets) [ none ↦ throw undefined_access | some t ↦ ok (t ∷ rest) ]

  -- The loop that fixes up the dependencies.
  unfoldable pub fix_dependencies :
      StringifiedMap Target → List SessionAction → Result (List SessionAction)
  unfolding get_all get
  fix_dependencies targets [] = ok []
  fix_dependencies targets (a ∷ actions) = do
    found ← get_all targets a.dependency_targets
    fixed ← fix_dependencies targets actions
    ok (
        record a {
          dependency_targets = found;
          dependencies = map target_to_name found;
          parent_action = elim a.parent_action [ none ↦ none | some p ↦ get key p targets ];
        }
        ∷ fixed)

  module _ (normalize : String → String) (config : SessionConfig) where
    -- The loop that gives actions their new targets.
    unfoldable pub set_targets :
        StringifiedMap Target
        → List SessionAction
        → Result (StringifiedMap Target × List SessionAction)
    unfolding get set altered_target
    set_targets targets [] = ok (targets, [])
    set_targets targets (a ∷ actions) =
        let targets' = set key a.target (altered_target normalize config a.target) targets in
        with_target (get key a.target targets') a >>= λ b.
        set_targets targets' actions >>= λ r. ok (r.0, b ∷ r.1)

    unfoldable pub alter_action_name :
        List SessionAction → List Target → Result (List SessionAction)
    unfolding set_targets set_declarations fix_dependencies
    alter_action_name actions declarations =
        if has_affixes config
        then (set_targets (set_declarations (record { entries = [] }) declarations) actions >>= λ r.
            fix_dependencies r.0 r.1)
        else ok actions
