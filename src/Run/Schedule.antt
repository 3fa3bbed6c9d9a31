-- ===== src/Run/Schedule.antt =====
-- api/commands/run.ts: `executeAllActionsReadyForExecution`, the start and the end of `executeAction`,
-- and the runner as a system of steps. JavaScript runs the code between two awaits in one piece, so a
-- step is one such piece. The listeners of `notifyListeners` are outside the model, and are taken not
-- to call the runner.
pub mod Rounds
pub mod Settled
pub mod Keeping
pub mod Standing
pub mod Order
pub mod Skips
pub mod Orphans
pub mod Accounts
mod Tests
use dataform.Prelude.{
  ℕ, zero, suc, ◌≡◌, String, Bool, true, false, not, ◌&&◌, ◌||◌, ◌==◌, List, [], ◌∷◌, ◌++◌, map,
  Option, none, some, if◌then◌else◌, ltb, nat_eq, length, filter, any, all, includes, add,
}
use dataform.Stringified.{set, delete, get}
use dataform.Proto.{
  Target, ActionStatus, TaskStatus, RunStatus, TableMetadata, ExecutionAction, ActionInput,
  TaskResult, ActionResult, ExecutionGraph,
}
use dataform.Run.State.{
  Encodings, Runner, is_successful, is_running, all_action_names, stop, cancel, time_out,
}
use dataform.Run.Cache.{should_cache_skip}

-- Every dependency is outside the graph or in the given set.
unfoldable pub depends_within : List String → List String → ExecutionAction → Bool
unfolding includes
depends_within names done action =
    all (λ dependency. not (includes names dependency) || includes done dependency)
      action.dependencies

-- The result of an action that is not run, line 291 to 298.
abbrev pub skipped_result : ExecutionAction → ActionResult
skipped_result a = record {
  name = a.name;
  target = a.target;
  inputs = [];
  status = ActionStatus.skipped;
  tasks = map (λ t. record { status = TaskStatus.skipped; error_message = "" }) a.tasks;
  post_execution_millis = 0;
}

-- The first result of a name, as `find` gives it.
unfoldable pub find_result : String → List ActionResult → Option ActionResult
find_result name [] = none
find_result name (r ∷ results) = if r.name == name then some r else find_result name results

-- A change of the fields of that result, which is shared with the list.
unfoldable pub update_result :
    String → (ActionResult → ActionResult) → List ActionResult → List ActionResult
update_result name f [] = []
update_result name f (r ∷ results) =
    if r.name == name then f r ∷ results else r ∷ update_result name f results

-- Line 240 to 256.
unfoldable pub cancel_pending : Runner → Runner
cancel_pending s = record s { pending = []; results = s.results ++ map skipped_result s.pending }

module _ (graph : ExecutionGraph) where
  unfoldable pub is_executable : Runner → ExecutionAction → Bool
  unfolding depends_within
  is_executable s a = depends_within (all_action_names graph) s.successful a

  unfoldable pub is_skippable : Runner → ExecutionAction → Bool
  unfolding is_executable depends_within
  is_skippable s a = not (is_executable s a) && depends_within (all_action_names graph) s.executed a

  unfoldable pub is_still_pending : Runner → ExecutionAction → Bool
  unfolding is_executable is_skippable
  is_still_pending s a = not (is_executable s a) && not (is_skippable s a)

  -- What the skippable actions leave: their results, and the pending actions that are neither.
  unfoldable pub skip_all : Runner → Runner
  unfolding is_executable is_skippable is_still_pending
  skip_all s = record s {
    pending = filter (is_still_pending s) s.pending;
    results = s.results ++ map skipped_result (filter (is_skippable s) s.pending);
  }

module _ (env : Encodings) (graph : ExecutionGraph) where
  -- The result of an action as it is started, line 319 to 331.
  unfoldable pub started_result : Runner → ExecutionAction → ActionStatus → ActionResult
  unfolding get
  started_result s a status = record {
    name = a.name;
    target = a.target;
    inputs =
        map
          (λ t. record {
            target = t;
            last_modified_millis = elim (get env.target_key t s.warehouse) [
              | none ↦ none
              | some m ↦ some m.last_updated_millis
            ];
          })
          a.transitive_inputs;
    status = status;
    tasks = [];
    post_execution_millis = 0;
  }

  -- What `executeAction` does before its first await, line 319 to 358.
  unfoldable pub start_results : Runner → ExecutionAction → List ActionResult
  unfolding started_result should_cache_skip find_result update_result
  start_results s a =
      if nat_eq (length a.tasks) 0
      then s.results ++ started_result s a ActionStatus.disabled ∷ []
      else if should_cache_skip env graph s a
      then s.results ++ started_result s a ActionStatus.cache_skipped ∷ []
      else elim (find_result a.name s.results) [
        | some resumed ↦
            update_result a.name (λ r. record r { status = ActionStatus.running }) s.results
        | none ↦ s.results ++ started_result s a ActionStatus.running ∷ []
      ]

  unfoldable pub start : Runner → ExecutionAction → Runner
  unfolding start_results
  start s a = record s { running = s.running ++ a ∷ []; results = start_results s a }

  unfoldable pub start_all : Runner → List ExecutionAction → Runner
  unfolding start
  start_all s [] = s
  start_all s (a ∷ actions) = start_all (start s a) actions

  -- `executeAllActionsReadyForExecution` up to its first await. Every call that it makes of itself has
  -- fewer pending actions, so their number bounds the depth.
  unfoldable pub execute_ready_within : ℕ → Runner → Runner
  unfolding skip_all start_all cancel_pending
  execute_ready_within zero s = s
  execute_ready_within (suc depth) s =
      let skipped = skip_all graph s in
      let again = execute_ready_within depth skipped in
      if s.stopped
      then s
      else if s.cancelled
      then cancel_pending s
      else start_all
          (if ltb 0 (length (filter (is_skippable graph s) s.pending)) then again else skipped)
          (filter (is_executable graph s) s.pending)

  unfoldable pub execute_ready : Runner → Runner
  unfolding execute_ready_within
  execute_ready s = execute_ready_within (suc (length s.pending)) s

-- What the awaits of `executeAction` give: the results of the tasks that it ran, the status that they
-- left, which `is_left` bounds, and the table's new metadata, if it was asked for and found.
pub record Outcome : Type 0 where
  pub tasks : List TaskResult
  pub status : ActionStatus
  pub new_metadata : Option TableMetadata

-- The loop over the tasks leaves an action running, failed or cancelled.
abbrev pub is_left : ActionStatus → Bool
is_left ActionStatus.running = true
is_left ActionStatus.failed = true
is_left ActionStatus.cancelled = true
is_left _ = false

-- Line 411 to 421, on the result.
unfoldable pub finished_result : Outcome → ActionResult → ActionResult
finished_result o r = record r {
  tasks = r.tasks ++ o.tasks;
  status = if is_running o.status then ActionStatus.successful else o.status;
  post_execution_millis = elim o.new_metadata [
    | some m ↦ m.last_updated_millis
    | none ↦ r.post_execution_millis
  ];
}

module _ (env : Encodings) (graph : ExecutionGraph) where
  -- The end of `executeAction` for an action whose tasks were run. A runner that was stopped meanwhile
  -- leaves the action running.
  unfoldable pub finish_action : Runner → ExecutionAction → Outcome → Runner
  unfolding finished_result update_result set delete
  finish_action s a o =
      if s.stopped
      then record s {
        results =
            update_result a.name (λ r. record r { tasks = r.tasks ++ o.tasks; status = o.status })
              s.results;
      }
      else record s {
        warehouse = elim o.new_metadata [
          | some m ↦ set env.target_key a.target m s.warehouse
          | none ↦ delete env.target_key a.target s.warehouse
        ];
        results = update_result a.name (finished_result o) s.results;
      }

  -- The status of the result of a started action. The results of its name are running ones of the run
  -- that is resumed, of which the first is its own if its tasks are run, and its own result if that was
  -- given a last status at once. (No other action has its name.)
  unfoldable pub status_of : Runner → String → ActionStatus
  unfolding find_result
  status_of s name = elim (find_result name (filter (λ r. not (is_running r.status)) s.results)) [
    | some r ↦ r.status
    | none ↦ ActionStatus.running
  ]

  -- Line 308 to 311.
  unfoldable pub record_execution : Runner → ExecutionAction → Runner
  unfolding add status_of
  record_execution s a = record s {
    executed = add s.executed a.name;
    successful =
        if is_successful (status_of s a.name) then add s.successful a.name else s.successful;
  }

  -- Line 307 to 311, with the end of `executeAction`. An action that was disabled or skipped by the
  -- cache has its last status already, and ran no task.
  unfoldable pub settle : Runner → ExecutionAction → Outcome → Runner
  unfolding finish_action record_execution status_of
  settle s a o =
      record_execution (if is_running (status_of s a.name) then finish_action s a o else s) a

  -- A promise of `executeAction` resolves.
  unfoldable pub complete : Runner → ExecutionAction → Outcome → Runner
  unfolding settle execute_ready
  complete s a o = execute_ready env graph (settle s a o)

  -- The runner before its first call of `executeAllActionsReadyForExecution`: its owner may stop or
  -- cancel it, and its timeout may end, while the schemas are prepared.
  pub data Prepared (s : Runner) : Runner → Type 0 where
    unprepared : Prepared s s
    stopped_early : {t : Runner} → Prepared s t → Prepared s (stop t)
    cancelled_early : {t : Runner} → Prepared s t → Prepared s (cancel t)
    timed_out_early : {t : Runner} → Prepared s t → Prepared s (time_out t)

  -- The steps of the runner, with the calls that its owner and its timeout may make.
  pub data Step (s : Runner) (t : Runner) : Type 0 where
    completes :
        (before after : List ExecutionAction) (a : ExecutionAction) (o : Outcome)
        → s.running ≡ before ++ a ∷ after
        → is_left o.status ≡ true
        → t ≡ complete (record s { running = before ++ after }) a o
        → Step s t
    stops : t ≡ stop s → Step s t
    cancels : t ≡ cancel s → Step s t
    times_out : t ≡ time_out s → Step s t

  pub data Steps (s : Runner) : Runner → Type 0 where
    here : Steps s s
    next : {t u : Runner} → Steps s t → Step t u → Steps s u

abbrev pub is_failed : ActionStatus → Bool
is_failed ActionStatus.failed = true
is_failed _ = false

-- The status of a run that was not stopped, line 192 to 203.
unfoldable pub final_status : Runner → RunStatus
final_status s =
    if s.timed_out
    then RunStatus.timed_out
    else if s.cancelled
    then RunStatus.cancelled
    else if any (λ r. is_failed r.status) s.results
    then RunStatus.failed
    else RunStatus.successful
