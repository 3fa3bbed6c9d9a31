-- ===== src/Build/Tests.antt =====
-- Small inputs for api/commands/build.ts.
use dataform.Prelude.{ℕ, String, ◌≡◌, ◌+◌, refl, All, [], ◌∷◌, false, true}
use dataform.Promises.{Attempt, rejects, retry}
use dataform.Proto.{Operation}
use dataform.Build.{operation_tasks}
use dataform.Build.Retries.{operation_attempts}
use dataform.Run.Tasks.{Rows, max_attempts}

abbrev operation : Operation
operation = record {
  target = record { database = "d"; schema = "s"; name = "load" };
  name = "d.s.load";
  tags = [];
  dependencies = [];
  dependency_targets = [];
  queries = "insert into t select 1" ∷ [];
  disabled = false;
}

-- a client that always times out
abbrev failing : ℕ → Attempt Rows String
failing n = rejects "timeout"

operation_attempts_example :
    All
      (λ task. (retry failing (λ e. true) (max_attempts 2 task)).1 ≡ 2 + 1)
      (operation_tasks operation)
operation_attempts_example = operation_attempts failing 2 operation (λ i. ("timeout", refl))
