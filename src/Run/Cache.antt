-- ===== src/Run/Cache.antt =====
-- api/commands/run.ts: `shouldCacheSkip`.
pub mod Sound
mod Tests
use dataform.Prelude.{
  ℕ, ◌≡◌, String, Bool, true, false, not, ◌&&◌, ◌||◌, ◌==◌, List, [], ◌∷◌, map, Option, none, some,
  if◌then◌else◌, nat_eq,
}
use dataform.Stringified.{Stringifier, StringifiedMap, StringifiedSet, map_of, get, has, has_value}
use dataform.Proto.{
  Target, ActionStatus, ActionHermeticity, TableMetadata, ExecutionAction, ActionInput,
  ActionResult, ExecutionGraph,
}
use dataform.Run.State.{ExecutedAction, Encodings, Runner}

abbrev pub is_non_hermetic : ActionHermeticity → Bool
is_non_hermetic ActionHermeticity.non_hermetic = true
is_non_hermetic _ = false

abbrev pub is_status_successful : ActionStatus → Bool
is_status_successful ActionStatus.successful = true
is_status_successful _ = false

-- The inputs whose metadata was found, with their times.
unfoldable pub known_inputs : List ActionInput → List (Target × ℕ)
known_inputs [] = []
known_inputs (i ∷ inputs) = elim i.last_modified_millis [
  | some t ↦ (i.target, t) ∷ known_inputs inputs
  | none ↦ known_inputs inputs
]

-- Two times that are set and equal.
abbrev pub same_time : ℕ → ℕ → Bool
same_time a b = not (nat_eq a 0 || nat_eq b 0 || not (nat_eq a b))

module _ (env : Encodings) where
  -- `equals(dataform.ExecutionAction, a, b)`
  abbrev pub equals : ExecutionAction → ExecutionAction → Bool
  equals a b = env.encode a == env.encode b

  -- The body of the loop over the transitive inputs.
  unfoldable pub input_unchanged : Runner → StringifiedMap ℕ → Target → Bool
  unfolding has_value get
  input_unchanged s times input =
      if has_value env.target_key input s.non_table_declarations
      then false
      else elim (get env.target_key input times) [
        | none ↦ false
        | some time ↦ elim (get env.target_key input s.warehouse) [
          | none ↦ false
          | some now ↦ same_time now.last_updated_millis time && not now.has_streaming_buffer
        ]
      ]

  unfoldable pub inputs_unchanged : Runner → StringifiedMap ℕ → List Target → Bool
  unfolding input_unchanged
  inputs_unchanged s times [] = true
  inputs_unchanged s times (input ∷ inputs) =
      input_unchanged s times input && inputs_unchanged s times inputs

  -- What is checked of an action that has been executed before, with its table's metadata.
  unfoldable pub is_unchanged : Runner → ExecutionAction → ExecutedAction → Bool
  unfolding inputs_unchanged known_inputs map_of get
  is_unchanged s action previous =
      if not (is_status_successful previous.action_result.status)
      then false
      else if not (equals previous.execution_action action)
      then false
      else elim (get env.target_key action.target s.warehouse) [
        | none ↦ false
        | some now ↦
            if not (same_time now.last_updated_millis previous.action_result.post_execution_millis)
            then false
            else inputs_unchanged s
                (map_of env.target_key (known_inputs previous.action_result.inputs))
                action.transitive_inputs
      ]

  unfoldable pub should_cache_skip : ExecutionGraph → Runner → ExecutionAction → Bool
  unfolding is_unchanged get
  should_cache_skip graph s action =
      if not graph.use_run_cache
      then false
      else if is_non_hermetic action.hermeticity
      then false
      else elim (get env.target_key action.target s.previously_executed) [
        | none ↦ false
        | some previous ↦ is_unchanged s action previous
      ]
