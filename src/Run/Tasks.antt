-- ===== src/Run/Tasks.antt =====
-- api/commands/run.ts: `executeTask`, and the loop over the tasks of an action in `executeAction`.
pub mod Laws
mod Tests
use dataform.Prelude.{
  ℕ, suc, ◌+◌, String, Bool, true, false, not, ◌&&◌, ◌==◌, List, [], ◌∷◌, ◌++◌, map, Option, none,
  some, if◌then◌else◌, ltb,
}
use dataform.Promises.{Attempt, Settled, resolved, rejected, retry}
use dataform.Run.State.{is_running}
use dataform.Proto.{ActionStatus, TaskStatus, ExecutionTask, TaskResult}

-- The rows of a query: of each row, its fields in order.
abbrev pub Rows : Type 0
Rows = List (List ℕ)

-- `task.type === "operation" ? 1 : idempotentActionRetries + 1 || 1`. The sum of a number and 1 is never 0.
unfoldable pub max_attempts : ℕ → ExecutionTask → ℕ
max_attempts retries task = if task.type == "operation" then 1 else retries + 1

-- What goes wrong with the rows of an assertion: the first field of the first row is the number of
-- rows that fail it. A missing row is an access to a field of `undefined`, which throws.
unfoldable pub assertion_failure : Rows → Bool
assertion_failure [] = true
assertion_failure ([] ∷ rows) = false
assertion_failure ((count ∷ fields) ∷ rows) = ltb 0 count

unfoldable pub is_failure : ExecutionTask → Settled Rows String → Bool
unfolding assertion_failure
is_failure task (rejected e) = true
is_failure task (resolved rows) = task.type == "assertion" && assertion_failure rows

-- What the world does while one task is executed: whether the runner is stopped and cancelled when the
-- loop comes to the task, whether it is cancelled when an error is caught, and how each call of the
-- warehouse client ends.
pub record Moment : Type 0 where
  pub stopped : Bool
  pub cancelled : Bool
  pub cancelled_at_error : Bool
  pub execute : ℕ → Attempt Rows String

-- The status that `executeTask` returns. `retry` is called with its default test, by which every error
-- is retriable.
unfoldable pub execute_task : ℕ → ExecutionTask → Moment → TaskStatus
unfolding max_attempts is_failure retry
execute_task retries task m =
    if is_failure task (retry m.execute (λ e. true) (max_attempts retries task)).0
    then if m.cancelled_at_error then TaskStatus.cancelled else TaskStatus.failed
    else TaskStatus.successful

abbrev pub status_after : TaskStatus → ActionStatus → ActionStatus
status_after TaskStatus.failed status = ActionStatus.failed
status_after TaskStatus.cancelled status = ActionStatus.cancelled
status_after _ status = status

-- The loop over the tasks from the last executed one onwards, line 362 to 383: the action's status and
-- the statuses of the tasks so far, and whether the loop was left because the runner was stopped.
unfoldable pub execute_tasks :
    ℕ
    → List (ExecutionTask × Moment)
    → ActionStatus
    → List TaskStatus
    → ActionStatus × List TaskStatus × Bool
unfolding execute_task
execute_tasks retries [] status done = (status, done, false)
execute_tasks retries ((task, m) ∷ tasks) status done =
    let result = execute_task retries task m in
    let run = execute_tasks retries tasks (status_after result status) (done ++ result ∷ []) in
    let skip = execute_tasks retries tasks status (done ++ TaskStatus.skipped ∷ []) in
    if m.stopped
    then (status, done, true)
    else if is_running status && not m.cancelled
    then run
    else skip
