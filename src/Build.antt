-- ===== src/Build.antt =====
-- api/commands/build.ts: the tasks of an operation's action, from `Builder.buildOperation`.
pub mod Retries
pub mod Inputs
mod Tests
use dataform.Prelude.{List, [], map, if◌then◌else◌}
use dataform.Proto.{Operation, ExecutionTask}

unfoldable pub operation_tasks : Operation → List ExecutionTask
operation_tasks operation =
    if operation.disabled
    then []
    else map (λ statement. record { type = "statement"; statement = statement }) operation.queries
