-- ===== src/Run/Tasks/Tests.antt =====
-- Small inputs for the tasks of an action.
use dataform.Prelude.{String, true, false, ◌≡◌, refl, ◌++◌, map, List, [], ◌∷◌, none}
use dataform.Promises.{Attempt, resolves}
use dataform.Proto.{ActionStatus, TaskStatus, ExecutionTask, ActionResult}
use dataform.Run.Schedule.{Outcome, finished_result}
use dataform.Run.Tasks.{Rows, Moment, execute_tasks}
use dataform.Run.Tasks.Laws.{Adds, IsTaskRun, execute_tasks-IsTaskRun, cancelled_action_succeeds}

abbrev moment : Attempt Rows String → Moment
moment attempt = record {
  stopped = false;
  cancelled = false;
  cancelled_at_error = false;
  execute = λ n. attempt;
}

abbrev statement : ExecutionTask
statement = record { type = "statement"; statement = "select 1" }

abbrev assertion : ExecutionTask
assertion = record { type = "assertion"; statement = "select count(1)" }

-- The assertion finds a failing row.
abbrev three : List (ExecutionTask × Moment)
three =
    (statement, moment (resolves []))
    ∷ (assertion, moment (resolves ((1 ∷ []) ∷ [])))
    ∷ (statement, moment (resolves []))
    ∷ []

statuses : execute_tasks 1 three ActionStatus.running [] ≡ (
  ActionStatus.failed,
  TaskStatus.successful ∷ TaskStatus.failed ∷ TaskStatus.skipped ∷ [],
  false,
)
unfolding execute_tasks
statuses = refl

execute_tasks-IsTaskRun_example :
    Adds (execute_tasks 1 three ActionStatus.running []) [] (IsTaskRun 1 three)
execute_tasks-IsTaskRun_example = execute_tasks-IsTaskRun 1 three [] (refl, (refl, (refl, tt)))

abbrev cancelled : List (ExecutionTask × Moment)
cancelled = (statement, record (moment (resolves [])) { cancelled = true }) ∷ []

abbrev result : ActionResult
result = record {
  name = "a";
  target = record { database = ""; schema = "s"; name = "a" };
  inputs = [];
  status = ActionStatus.running;
  tasks = [];
  post_execution_millis = 0;
}

abbrev outcome : Outcome
outcome = record { tasks = []; status = ActionStatus.running; new_metadata = none }

outcome_status : outcome.status ≡ (execute_tasks 1 cancelled ActionStatus.running []).0
unfolding execute_tasks
outcome_status = refl

cancelled_action_succeeds_example :
    ((execute_tasks 1 cancelled ActionStatus.running []).1
      ≡ [] ++ map (λ t. TaskStatus.skipped) cancelled)
    × ((finished_result outcome result).status ≡ ActionStatus.successful)
cancelled_action_succeeds_example =
    cancelled_action_succeeds 1 cancelled [] outcome result ((refl, refl), tt) outcome_status
