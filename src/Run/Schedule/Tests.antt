-- ===== src/Run/Schedule/Tests.antt =====
-- Small inputs for the runner.
use dataform.Prelude.{
  ◌≡◌, ◌≤◌, ◌+◌, refl, arith, count, Elem, here, there, Has, includes, eq-cases, subst, inl, inr,
  filter, String, false, List, [], ◌∷◌, none, map,
}
use dataform.Proto.{ActionStatus, ActionHermeticity, ExecutionAction, ExecutionGraph}
use dataform.Names.{target_to_name}
use dataform.Run.State.{Encodings, Runner, all_action_names, create, stop}
use dataform.Run.Schedule.{
  Outcome, execute_ready, is_executable, skip_all, start_all, complete, Steps, completes, stops,
  next, unprepared, skipped_result,
}
use dataform.Run.Schedule.Rounds.{execute_ready_live}
use dataform.Run.Schedule.Settled.{result_names}
use dataform.Run.Schedule.Order.{running_after_dependencies}
use dataform.Run.Schedule.Accounts.{action_names, pending_or_one_result}
use dataform.Run.Schedule.Keeping.{HasSuccess}
use dataform.Run.Schedule.Orphans.{dependents_of_skipped_wait}

abbrev env : Encodings
env = record {
  target_key = record {
    stringify = target_to_name;
    parse = λ n. record { database = ""; schema = ""; name = n };
  };
  encode = λ a. a.name;
}

abbrev action : String → List String → ExecutionAction
action name dependencies = record {
  name = name;
  target = record { database = ""; schema = "s"; name = name };
  type = "table";
  table_type = "table";
  dependencies = dependencies;
  transitive_inputs = [];
  hermeticity = ActionHermeticity.hermetic;
  tasks = record { type = "statement"; statement = "select 1" } ∷ [];
  has_descriptor = false;
}

-- a chain of three
abbrev graph : ExecutionGraph
graph = record {
  project_config = record {
    warehouse = "bigquery";
    default_database = "db";
    idempotent_action_retries = 0;
    use_run_cache = false;
  };
  use_run_cache = false;
  disable_set_metadata = false;
  tables = [];
  declaration_targets = [];
  actions = action "a" [] ∷ action "b" ("a" ∷ []) ∷ action "c" ("b" ∷ []) ∷ [];
}

abbrev outcome : ActionStatus → Outcome
outcome status = record { tasks = []; status = status; new_metadata = none }

abbrev started : Runner
started = execute_ready env graph (create env graph [] [])

abbrev summary : Runner → List (String × ActionStatus) × List String
summary s = (map (λ r. (r.name, r.status)) s.results, map (λ a. a.name) s.pending)

abbrev without_running : Runner → Runner
without_running s = record s { running = [] }

-- The first action fails: the second is skipped, and the third is left without a result.
chain_of_failures :
    (summary started ≡ (("a", ActionStatus.running) ∷ [], "b" ∷ "c" ∷ []))
    × (summary (
          complete env graph
            (without_running started)
            (action "a" [])
            (outcome ActionStatus.failed))
        ≡ (("a", ActionStatus.failed) ∷ ("b", ActionStatus.skipped) ∷ [], "c" ∷ []))
unfolding execute_ready complete create target_to_name
chain_of_failures = (refl, refl)

abbrev after_failure : Runner
after_failure =
    complete env graph (without_running started) (action "a" []) (outcome ActionStatus.failed)

abbrev after_success : Runner
after_success =
    complete env graph (without_running started) (action "a" []) (outcome ActionStatus.running)

running_in_started : started.running ≡ action "a" [] ∷ []
unfolding execute_ready create target_to_name
running_in_started = refl

success : Steps env graph started after_success
success =
    next Steps.here
      (completes [] [] (action "a" []) (outcome ActionStatus.running) running_in_started refl refl)

running_b : after_success.running ≡ action "b" ("a" ∷ []) ∷ []
unfolding execute_ready complete create target_to_name
running_b = refl

b_depends_on_a : Has ("a" ∷ []) "a"
unfolding includes
b_depends_on_a = refl

a_in_graph : Has (all_action_names graph) "a"
unfolding includes
a_in_graph = refl

running_b_place : Elem (action "b" ("a" ∷ [])) after_success.running
running_b_place = rw running_b (here refl)

distinct : (n : String) → count n (action_names graph.actions) ≤ 1
unfolding count
distinct n = elim (eq-cases "a" n) [
  | inl (_, same) ↦ subst (λ m. count m (action_names graph.actions) ≤ 1) same (ground arith)
  | inr (not_a, _) ↦ elim (eq-cases "b" n) [
    | inl (_, same) ↦ subst (λ m. count m (action_names graph.actions) ≤ 1) same (ground arith)
    | inr (not_b, _) ↦ rw (not_a, not_b) (ground arith)
  ]
]

running_after_dependencies_example :
    Has after_success.successful "a" × HasSuccess after_success.results "a"
running_after_dependencies_example =
    running_after_dependencies env graph [] [] (create env graph [] []) after_success distinct
      unprepared success (action "b" ("a" ∷ [])) "a" running_b_place b_depends_on_a a_in_graph

pending_or_one_result_example :
    count "c" (result_names after_success.results) + count "c" (action_names after_success.pending)
    ≡ count "c" (action_names graph.actions)
pending_or_one_result_example =
    pending_or_one_result env graph [] (create env graph [] []) after_success distinct unprepared
      success "c"

not_stopped : (create env graph [] []).stopped ≡ false
unfolding create
not_stopped = refl

not_cancelled : (create env graph [] []).cancelled ≡ false
unfolding create
not_cancelled = refl

execute_ready_live_example :
    execute_ready env graph (create env graph [] [])
    ≡ start_all env graph
        (skip_all graph (create env graph [] []))
        (filter (is_executable graph (create env graph [] [])) (create env graph [] []).pending)
execute_ready_live_example =
    execute_ready_live env graph (create env graph [] []) not_stopped not_cancelled

failure : Steps env graph started after_failure
failure =
    next Steps.here
      (completes [] [] (action "a" []) (outcome ActionStatus.failed) running_in_started refl refl)

abbrev after_stop : Runner
after_stop = stop after_failure

going_after_stop : after_stop.cancelled ≡ false
unfolding execute_ready complete create target_to_name
going_after_stop = refl

b_was_skipped : Elem (skipped_result (action "b" ("a" ∷ []))) after_stop.results
unfolding execute_ready complete create target_to_name
b_was_skipped = there (here refl)

c_depends_on_b : Has ("b" ∷ []) "b"
unfolding includes
c_depends_on_b = refl

dependents_of_skipped_wait_example :
    Elem (action "c" ("b" ∷ [])) after_stop.pending
    × (count "c" (result_names after_stop.results) ≡ 0)
dependents_of_skipped_wait_example =
    dependents_of_skipped_wait env graph [] (create env graph [] []) after_stop
      (skipped_result (action "b" ("a" ∷ []))) (action "c" ("b" ∷ [])) distinct unprepared
      (next failure (stops refl)) going_after_stop b_was_skipped refl (there (there (here refl)))
      c_depends_on_b
