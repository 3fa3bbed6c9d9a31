-- ===== src/Run/Cache/Sound.antt =====
-- api/commands/run.ts: when an action is skipped by the cache.
use dataform.Prelude.{
  ℕ, ◌≡◌, ◌≢◌, ◌↔◌, refl, Bool, true, false, not, eq_iff, List, [], ◌∷◌, some, All, inl, inr,
  if◌then◌else◌, Option-cases, arith,
}
use dataform.Stringified.{StringifiedMap, map_of, get, has_value}
use dataform.Proto.{
  Target, ActionStatus, ActionHermeticity, TableMetadata, ExecutionAction, ExecutionGraph,
}
use dataform.Run.State.{ExecutedAction, Encodings, Runner}
use dataform.Run.Cache.{
  is_non_hermetic, is_status_successful, known_inputs, same_time, equals, input_unchanged,
  inputs_unchanged, is_unchanged, should_cache_skip,
}

module _ (env : Encodings) (s : Runner) where
  -- A table that the warehouse has, last changed at the given time, which is set.
  pub record IsAsOf (target : Target) (time : ℕ) (now : TableMetadata) : Type 0 where
    pub found : get env.target_key target s.warehouse ≡ some now
    pub same : now.last_updated_millis ≡ time
    pub is_set : time ≢ 0

  -- An input as it was when the action was executed before.
  pub record IsUnchangedInput (times : StringifiedMap ℕ) (input : Target) : Type 0 where
    pub time : ℕ
    pub now : TableMetadata
    pub recorded : get env.target_key input times ≡ some time
    pub as_of : IsAsOf input time now
    pub is_table : has_value env.target_key input s.non_table_declarations ≡ false
    pub settled : now.has_streaming_buffer ≡ false

  -- What the comment in the code asks of a skipped action.
  pub record IsCacheHit (graph : ExecutionGraph) (action : ExecutionAction) : Type 0 where
    pub previous : ExecutedAction
    pub now : TableMetadata
    pub turned_on : graph.use_run_cache ≡ true
    pub hermetic : action.hermeticity ≢ ActionHermeticity.non_hermetic
    pub executed_before : get env.target_key action.target s.previously_executed ≡ some previous
    pub succeeded : previous.action_result.status ≡ ActionStatus.successful
    pub same_action : env.encode previous.execution_action ≡ env.encode action
    pub unchanged : IsAsOf action.target previous.action_result.post_execution_millis now
    pub inputs :
        All
          (IsUnchangedInput (map_of env.target_key (known_inputs previous.action_result.inputs)))
          action.transitive_inputs

  same_time_iff : (a b : ℕ) → (same_time a b ≡ true) ↔ ((a ≡ b) × (b ≢ 0))
  same_time_iff a b = ground arith

  input_unchanged_sound :
      (times : StringifiedMap ℕ) (input : Target)
      → input_unchanged env s times input ≡ true
      → IsUnchangedInput times input
  unfolding input_unchanged
  input_unchanged_sound times input e = elim (Option-cases (get env.target_key input times)) [
    | inl missing ↦ absurd (
        false_case (has_value env.target_key input s.non_table_declarations)
          (rw (missing, input_unchanged) at e))
    | inr (time, recorded) ↦ elim (Option-cases (get env.target_key input s.warehouse)) [
      | inl missing ↦ absurd (
          false_case (has_value env.target_key input s.non_table_declarations)
            (rw (recorded, missing, input_unchanged) at e))
      | inr (now, found) ↦
          let h = (rw (recorded, found, input_unchanged) at e) in
          record {
            time = time;
            now = now;
            recorded = recorded;
            as_of = record { found = found; same = ground arith; is_set = ground arith };
            is_table = ground arith;
            settled = ground arith;
          }
    ]
  ]
    where
      false_case : (b : Bool) → (if b then false else false) ≡ true → ⊥
      false_case b h = ground arith

  input_unchanged_complete :
      (times : StringifiedMap ℕ) (input : Target)
      → IsUnchangedInput times input
      → input_unchanged env s times input ≡ true
  unfolding input_unchanged
  input_unchanged_complete times input u =
      rw (u.recorded, u.as_of.found, u.is_table, input_unchanged)
        (ground (arith, u.as_of.same, u.as_of.is_set, u.settled))

  inputs_unchanged_iff :
      (times : StringifiedMap ℕ) (inputs : List Target)
      → (inputs_unchanged env s times inputs ≡ true) ↔ All (IsUnchangedInput times) inputs
  unfolding inputs_unchanged
  inputs_unchanged_iff times [] = (λ e. tt, λ h. refl)
  inputs_unchanged_iff times (input ∷ inputs) = (
    λ e. (
      input_unchanged_sound times input (ground arith),
      (inputs_unchanged_iff times inputs).0 (ground arith),
    ),
    λ h.
        let here = input_unchanged_complete times input h.0 in
        let later = (inputs_unchanged_iff times inputs).1 h.1 in ground arith,
  )

  -- The decision on an action that has been executed before.
  record IsUnchanged (action : ExecutionAction) (previous : ExecutedAction) : Type 0 where
    now : TableMetadata
    succeeded : previous.action_result.status ≡ ActionStatus.successful
    same_action : env.encode previous.execution_action ≡ env.encode action
    unchanged : IsAsOf action.target previous.action_result.post_execution_millis now
    inputs :
        All
          (IsUnchangedInput (map_of env.target_key (known_inputs previous.action_result.inputs)))
          action.transitive_inputs

  is_unchanged_sound :
      (action : ExecutionAction) (previous : ExecutedAction)
      → is_unchanged env s action previous ≡ true
      → IsUnchanged action previous
  unfolding is_unchanged
  is_unchanged_sound action previous e =
      elim (Option-cases (get env.target_key action.target s.warehouse)) [
        | inl missing ↦ absurd (
            no_table (is_status_successful previous.action_result.status)
              (equals env previous.execution_action action) (rw (missing, is_unchanged) at e))
        | inr (now, found) ↦
            let h = (rw (found, is_unchanged) at e) in
            record {
              now = now;
              succeeded = ground arith;
              same_action =
                  ground (arith, eq_iff (env.encode previous.execution_action) (env.encode action));
              unchanged = record { found = found; same = ground arith; is_set = ground arith };
              inputs =
                  (inputs_unchanged_iff
                      (map_of env.target_key (known_inputs previous.action_result.inputs))
                      action.transitive_inputs).0
                    (ground arith);
            }
      ]
    where
      no_table : (a b : Bool) → (if not a then false else if not b then false else false) ≡ true → ⊥
      no_table a b h = ground arith

  is_unchanged_complete :
      (action : ExecutionAction) (previous : ExecutedAction)
      → IsUnchanged action previous
      → is_unchanged env s action previous ≡ true
  unfolding is_unchanged
  is_unchanged_complete action previous u =
      let inputs =
        (inputs_unchanged_iff (map_of env.target_key (known_inputs previous.action_result.inputs))
            action.transitive_inputs).1
          u.inputs in
      rw (u.unchanged.found, is_unchanged)
        (ground (
          arith,
          eq_iff (env.encode previous.execution_action) (env.encode action),
          u.succeeded,
          u.same_action,
          u.unchanged.same,
          u.unchanged.is_set,
        ))

-- An action is skipped by the cache exactly when the cache is turned on, the action is not marked as
-- non-hermetic, the same action succeeded before, its table has not changed since, and each of its
-- transitive inputs is a table (or no declaration) that has the time recorded then and no streaming
-- buffer; a time that is not set matches nothing.
pub should_cache_skip_iff :
    (env : Encodings) (graph : ExecutionGraph) (s : Runner) (action : ExecutionAction)
    → (should_cache_skip env graph s action ≡ true) ↔ IsCacheHit env s graph action
unfolding should_cache_skip
should_cache_skip_iff env graph s action = (to, from)
  where
    never : (a b : Bool) → (if not a then false else if b then false else false) ≡ true → ⊥
    never a b h = ground arith

    to : should_cache_skip env graph s action ≡ true → IsCacheHit env s graph action
    to e = elim (Option-cases (get env.target_key action.target s.previously_executed)) [
      | inl missing ↦ absurd (
          never graph.use_run_cache (is_non_hermetic action.hermeticity)
            (rw (missing, should_cache_skip) at e))
      | inr (previous, found) ↦
          let h = (rw (found, should_cache_skip) at e) in
          let u = is_unchanged_sound env s action previous (ground arith) in
          record {
            previous = previous;
            now = u.now;
            turned_on = ground arith;
            hermetic = ground arith;
            executed_before = found;
            succeeded = u.succeeded;
            same_action = u.same_action;
            unchanged = u.unchanged;
            inputs = u.inputs;
          }
    ]

    from : IsCacheHit env s graph action → should_cache_skip env graph s action ≡ true
    from u =
        let same = is_unchanged_complete env s action u.previous (record {
          now = u.now;
          succeeded = u.succeeded;
          same_action = u.same_action;
          unchanged = u.unchanged;
          inputs = u.inputs;
        }) in
        rw (u.executed_before, should_cache_skip) (ground (arith, u.turned_on, u.hermetic))
