-- ===== src/Build/Retries.antt =====
-- api/commands/build.ts and run.ts: how often the statements of an operation are attempted.
use dataform.Prelude.{ℕ, ◌+◌, ◌≡◌, sym, String, true, List, [], ◌∷◌, map, All, inl, inr, Bool-cases}
use dataform.Promises.{Attempt, rejects, Settled, retry}
use dataform.Promises.Laws.{Ends, succeeds, gives_up, exhausts, has_no_attempt, retry-Ends}
use dataform.Proto.{Operation, ExecutionTask}
use dataform.Build.{operation_tasks}
use dataform.Run.Tasks.{Rows, max_attempts}

module _ (execute : ℕ → Attempt Rows String)
    (failing : (i : ℕ) → (e : String) × (execute i ≡ rejects e)) where
  -- Calls that all fail are repeated until the limit.
  calls_eq :
      (limit calls : ℕ) (settled : Settled Rows String)
      → Ends execute (λ e. true) limit calls settled
      → calls ≡ limit
  calls_eq limit calls settled (succeeds k rows h before e) = let (err, f) = failing k in cc
  calls_eq limit calls settled (gives_up k err h before e other) = cc
  calls_eq limit calls settled (exhausts k err same before e) = same
  calls_eq limit calls settled (has_no_attempt none_left) = sym none_left

  calls_of : (limit : ℕ) → (retry execute (λ e. true) limit).1 ≡ limit
  calls_of limit = calls_eq limit _ _ (retry-Ends execute (λ e. true) limit)

abbrev statement_tasks : List String → List ExecutionTask
statement_tasks queries =
    map (λ statement. record { type = "statement"; statement = statement }) queries

module _ (execute : ℕ → Attempt Rows String)
    (failing : (i : ℕ) → (e : String) × (execute i ≡ rejects e)) (retries : ℕ) where
  statement_attempts :
      (queries : List String)
      → All
          (λ task. (retry execute (λ e. true) (max_attempts retries task)).1 ≡ retries + 1)
          (statement_tasks queries)
  unfolding max_attempts
  statement_attempts [] = tt
  statement_attempts (q ∷ queries) =
      (calls_of execute failing (retries + 1), statement_attempts queries)

-- A statement of an operation of which every call of the client fails is executed once more than the
-- configured retries, with the attempts that the runner allows the tasks that the builder makes of the
-- operation; an operation is not limited to one attempt.
pub operation_attempts :
    (execute : ℕ → Attempt Rows String) (retries : ℕ) (operation : Operation)
    → ((i : ℕ) → (e : String) × (execute i ≡ rejects e))
    → All
        (λ task. (retry execute (λ e. true) (max_attempts retries task)).1 ≡ retries + 1)
        (operation_tasks operation)
unfolding operation_tasks
operation_attempts execute retries operation failing = elim (Bool-cases operation.disabled) [
  | inl e ↦ rw e tt
  | inr e ↦ rw e (statement_attempts execute failing retries operation.queries)
]
