-- ===== src/Run/Tasks/Laws.antt =====
-- api/commands/run.ts: how the tasks of an action end.
use dataform.Prelude.{
  ℕ, zero, suc, ◌+◌, ◌≢◌, String, Option, eq-cases, subst, ◌≡◌, refl, sym, ap, ◌∙◌, Bool, true,
  false, List, [], ◌∷◌, ◌++◌, map, append-nil, append_assoc, All, if◌then◌else◌, inl, inr, ◌⊎◌,
  Bool-cases, arith,
}
use dataform.Proto.{ActionStatus, TaskStatus, ExecutionTask, ActionResult}
use dataform.Run.State.{is_running}
use dataform.Run.Schedule.{Outcome, finished_result}
use dataform.Promises.{Settled, resolved, rejected, retry}
use dataform.Promises.Laws.{Ends, retry-Ends}
use dataform.Run.Tasks.{
  Rows, Moment, max_attempts, assertion_failure, is_failure, status_after, execute_task,
  execute_tasks,
}

-- How often a task may be tried: an operation once.
abbrev IsLimit : ℕ → ExecutionTask → ℕ → Type 0
IsLimit retries task limit =
    (task.type ≡ "operation") × (limit ≡ 1) ⊎ (task.type ≢ "operation") × (limit ≡ retries + 1)

-- The client's calls for a task, tried again after each error within the limit, end this way.
abbrev Tried : ℕ → ExecutionTask → Moment → Settled Rows String → Type 0
Tried retries task m settled =
    (limit : ℕ) × (calls : ℕ) × IsLimit retries task limit
    × Ends m.execute (λ e. true) limit calls settled

-- The rows of an assertion that holds: the first field, if there is one, counts no failing row.
abbrev NoFailingRows : Rows → Type 0
NoFailingRows [] = ⊥
NoFailingRows ([] ∷ rows) = Unit
NoFailingRows ((n ∷ fields) ∷ rows) = n ≡ 0

abbrev pub Succeeds : ℕ → ExecutionTask → Moment → Type 0
Succeeds retries task m =
    (rows : Rows) × Tried retries task m (resolved rows)
    × ((task.type ≢ "assertion") ⊎ NoFailingRows rows)

abbrev pub Fails : ℕ → ExecutionTask → Moment → Type 0
Fails retries task m =
    ((e : Option String) × Tried retries task m (rejected e))
    ⊎ ((rows : Rows) × Tried retries task m (resolved rows)
        × (task.type ≡ "assertion")
        × (NoFailingRows rows → ⊥))

abbrev pub all_skipped : List (ExecutionTask × Moment) → List TaskStatus
all_skipped tasks = map (λ t. TaskStatus.skipped) tasks

-- The statuses of the tasks of an action, with the status that they leave the action in.
pub data IsTaskRun (retries : ℕ)
    : List (ExecutionTask × Moment) → ActionStatus → List TaskStatus → Type 0 where
  at_end : IsTaskRun retries [] ActionStatus.running []
  -- The task is executed, if the run is not cancelled.
  succeeded :
      (task : ExecutionTask) (m : Moment) (tasks : List (ExecutionTask × Moment))
      (status : ActionStatus) (rest : List TaskStatus)
      → m.cancelled ≡ false
      → Succeeds retries task m
      → IsTaskRun retries tasks status rest
      → IsTaskRun retries ((task, m) ∷ tasks) status (TaskStatus.successful ∷ rest)
  failed :
      (task : ExecutionTask) (m : Moment) (tasks : List (ExecutionTask × Moment))
      → m.cancelled ≡ false
      → Fails retries task m
      → m.cancelled_at_error ≡ false
      → IsTaskRun retries
          ((task, m) ∷ tasks)
          ActionStatus.failed
          (TaskStatus.failed ∷ all_skipped tasks)
  was_cancelled :
      (task : ExecutionTask) (m : Moment) (tasks : List (ExecutionTask × Moment))
      → m.cancelled ≡ false
      → Fails retries task m
      → m.cancelled_at_error ≡ true
      → IsTaskRun retries
          ((task, m) ∷ tasks)
          ActionStatus.cancelled
          (TaskStatus.cancelled ∷ all_skipped tasks)
  passed_over :
      (task : ExecutionTask) (m : Moment) (tasks : List (ExecutionTask × Moment))
      (status : ActionStatus) (rest : List TaskStatus)
      → m.cancelled ≡ true
      → IsTaskRun retries tasks status rest
      → IsTaskRun retries ((task, m) ∷ tasks) status (TaskStatus.skipped ∷ rest)

-- The statuses that are added to those so far.
abbrev pub Adds :
    ActionStatus × List TaskStatus × Bool
    → List TaskStatus
    → (ActionStatus → List TaskStatus → Type 0)
    → Type 0
Adds r done P = (rest : List TaskStatus) × (r.1 ≡ done ++ rest) × P r.0 rest

-- Once the action does not run any more, the tasks left are skipped.
execute_tasks-skips :
    (retries : ℕ) (tasks : List (ExecutionTask × Moment)) (status : ActionStatus)
    (done : List TaskStatus)
    → is_running status ≡ false
    → All (λ t. t.1.stopped ≡ false) tasks
    → execute_tasks retries tasks status done ≡ (status, done ++ all_skipped tasks, false)
unfolding execute_tasks
execute_tasks-skips retries [] status done h live =
    ap (λ l. (status, l, false)) (sym (append-nil done))
execute_tasks-skips retries ((task, m) ∷ tasks) status done h live =
    rw (live.0, h)
      (execute_tasks-skips retries tasks status (done ++ TaskStatus.skipped ∷ []) h live.1
        ∙ ap (λ l. (status, l, false))
            (append_assoc done (TaskStatus.skipped ∷ []) (all_skipped tasks)))

max_attempts-IsLimit :
    (retries : ℕ) (task : ExecutionTask) → IsLimit retries task (max_attempts retries task)
unfolding max_attempts
max_attempts-IsLimit retries task = elim (eq-cases task.type "operation") [
  | inl (b, e) ↦ rw b (inl (e, refl))
  | inr (b, e) ↦ rw b (inr (e, refl))
]

assertion_failure-cases :
    (rows : Rows)
    → (assertion_failure rows ≡ true) × (NoFailingRows rows → ⊥)
      ⊎ (assertion_failure rows ≡ false) × NoFailingRows rows
unfolding assertion_failure
assertion_failure-cases [] = inl (refl, λ h. h)
assertion_failure-cases ([] ∷ rows) = inr (refl, tt)
assertion_failure-cases ((zero ∷ fields) ∷ rows) = inr (refl, refl)
assertion_failure-cases ((suc n ∷ fields) ∷ rows) =
    inl (ground arith, λ h. absurd (omega (arith, h)))

settled_cases :
    (x : Settled Rows String)
    → ((rows : Rows) × (x ≡ resolved rows)) ⊎ ((e : Option String) × (x ≡ rejected e))
settled_cases (resolved rows) = inl (rows, refl)
settled_cases (rejected e) = inr (e, refl)

-- The test that `executeTask` makes says whether the task failed.
is_failure-cases :
    (retries : ℕ) (task : ExecutionTask) (m : Moment)
    → let settled = (retry m.execute (λ e. true) (max_attempts retries task)).0 in
      (is_failure task settled ≡ true) × Fails retries task m
      ⊎ (is_failure task settled ≡ false) × Succeeds retries task m
unfolding is_failure
is_failure-cases retries task m =
    let limit = max_attempts retries task in
    let ended = retry-Ends m.execute (λ e. true) limit in
    let calls = (retry m.execute (λ e. true) limit).1 in
    let tried : (x : Settled Rows String)
        → (retry m.execute (λ e. true) limit).0 ≡ x
        → Tried retries task m x =
      λ x e. (
        limit,
        calls,
        max_attempts-IsLimit retries task,
        subst (Ends m.execute (λ e. true) limit calls) e ended,
      ) in
    elim (settled_cases (retry m.execute (λ e. true) limit).0) [
      | inr (err, e) ↦ rw e (inl (refl, inl (err, tried (rejected err) e)))
      | inl (rows, e) ↦ elim (eq-cases task.type "assertion") [
        | inr (b, other) ↦
            rw (e, is_failure, b) (inr (refl, (rows, tried (resolved rows) e, inl other)))
        | inl (b, same) ↦ elim (assertion_failure-cases rows) [
          | inl (f, bad) ↦
              rw (e, is_failure, b, f) (inl (refl, inr (rows, tried (resolved rows) e, same, bad)))
          | inr (f, good) ↦
              rw (e, is_failure, b, f) (inr (refl, (rows, tried (resolved rows) e, inr good)))
        ]
      ]
    ]

execute_task_cases :
    (retries : ℕ) (task : ExecutionTask) (m : Moment)
    → (execute_task retries task m ≡ TaskStatus.successful) × Succeeds retries task m
      ⊎ (execute_task retries task m ≡ TaskStatus.failed)
        × Fails retries task m
        × (m.cancelled_at_error ≡ false)
      ⊎ (execute_task retries task m ≡ TaskStatus.cancelled)
        × Fails retries task m
        × (m.cancelled_at_error ≡ true)
unfolding execute_task
execute_task_cases retries task m = elim (is_failure-cases retries task m) [
  | inr (b, good) ↦ inl (rw b refl, good)
  | inl (b, bad) ↦ elim (Bool-cases m.cancelled_at_error) [
    | inl c ↦ inr (inr (rw (b, c) refl, bad, c))
    | inr c ↦ inr (inl (rw (b, c) refl, bad, c))
  ]
]

execute_tasks-passes :
    (retries : ℕ) (task : ExecutionTask) (m : Moment) (tasks : List (ExecutionTask × Moment))
    (done : List TaskStatus)
    → m.stopped ≡ false
    → m.cancelled ≡ true
    → execute_tasks retries ((task, m) ∷ tasks) ActionStatus.running done
      ≡ execute_tasks retries tasks ActionStatus.running (done ++ TaskStatus.skipped ∷ [])
unfolding execute_tasks
execute_tasks-passes retries task m tasks done live over = rw (live, over) refl

execute_tasks-runs :
    (retries : ℕ) (task : ExecutionTask) (m : Moment) (tasks : List (ExecutionTask × Moment))
    (done : List TaskStatus) (status : TaskStatus)
    → m.stopped ≡ false
    → m.cancelled ≡ false
    → execute_task retries task m ≡ status
    → execute_tasks retries ((task, m) ∷ tasks) ActionStatus.running done
      ≡ execute_tasks retries tasks (status_after status ActionStatus.running) (done ++ status ∷ [])
unfolding execute_tasks
execute_tasks-runs retries task m tasks done status live going e =
    rw (live, going)
      (ap (λ x. execute_tasks retries tasks (status_after x ActionStatus.running) (done ++ x ∷ []))
        e)

-- If the runner is not stopped meanwhile, the loop gives every task left one status, in order. A task
-- that the loop comes to while the run is cancelled is skipped. Any other is executed, its calls tried
-- again after errors up to its limit; it succeeds if a call succeeds and, for an assertion, the rows
-- count no failing one. The first that does not succeed is failed, or cancelled if the run is by then,
-- this is the status of the action, and all tasks after it are skipped; without one the action is left
-- running.
pub execute_tasks-IsTaskRun :
    (retries : ℕ) (tasks : List (ExecutionTask × Moment)) (done : List TaskStatus)
    → All (λ t. t.1.stopped ≡ false) tasks
    → Adds (execute_tasks retries tasks ActionStatus.running done) done (IsTaskRun retries tasks)
unfolding execute_tasks
execute_tasks-IsTaskRun retries [] done live = ([], sym (append-nil done), at_end)
execute_tasks-IsTaskRun retries ((task, m) ∷ tasks) done live = elim (Bool-cases m.cancelled) [
  | inl over ↦
      let (rest, e, run) =
        execute_tasks-IsTaskRun retries tasks (done ++ TaskStatus.skipped ∷ []) live.1 in
      adds (execute_tasks-passes retries task m tasks done live.0 over) TaskStatus.skipped rest e
        (passed_over task m tasks _ rest over run)
  | inr going ↦
      let runs =
        λ (status : TaskStatus). execute_tasks-runs retries task m tasks done status live.0 going in
      elim (execute_task_cases retries task m) [
        | inl (ok, good) ↦
            let (rest, e, run) =
              execute_tasks-IsTaskRun retries tasks (done ++ TaskStatus.successful ∷ []) live.1 in
            adds (runs TaskStatus.successful ok) TaskStatus.successful rest e
              (succeeded task m tasks _ rest going good run)
        | inr (inl (bad, f, c)) ↦
            adds
              (runs TaskStatus.failed bad
                ∙ execute_tasks-skips retries tasks ActionStatus.failed
                    (done ++ TaskStatus.failed ∷ []) refl live.1)
              TaskStatus.failed (all_skipped tasks) refl (failed task m tasks going f c)
        | inr (inr (gone, f, c)) ↦
            adds
              (runs TaskStatus.cancelled gone
                ∙ execute_tasks-skips retries tasks ActionStatus.cancelled
                    (done ++ TaskStatus.cancelled ∷ []) refl live.1)
              TaskStatus.cancelled (all_skipped tasks) refl (was_cancelled task m tasks going f c)
      ]
]
  where
    adds :
        {r r' : ActionStatus × List TaskStatus × Bool}
        → r ≡ r'
        → (status : TaskStatus) (rest : List TaskStatus) → r'.1 ≡ (done ++ status ∷ []) ++ rest
        → IsTaskRun retries ((task, m) ∷ tasks) r'.0 (status ∷ rest)
        → Adds r done (IsTaskRun retries ((task, m) ∷ tasks))
    adds same status rest e run =
        subst (λ r. Adds r done (IsTaskRun retries ((task, m) ∷ tasks))) (sym same)
          (status ∷ rest, e ∙ append_assoc done (status ∷ []) rest, run)

execute_tasks-cancelled :
    (retries : ℕ) (tasks : List (ExecutionTask × Moment)) (done : List TaskStatus)
    → All (λ t. (t.1.stopped ≡ false) × (t.1.cancelled ≡ true)) tasks
    → execute_tasks retries tasks ActionStatus.running done
      ≡ (ActionStatus.running, done ++ map (λ t. TaskStatus.skipped) tasks, false)
unfolding execute_tasks
execute_tasks-cancelled retries [] done h =
    ap (λ l. (ActionStatus.running, l, false)) (sym (append-nil done))
execute_tasks-cancelled retries ((task, m) ∷ tasks) done h =
    rw (h.0.0, h.0.1)
      (execute_tasks-cancelled retries tasks (done ++ TaskStatus.skipped ∷ []) h.1
        ∙ ap (λ l. (ActionStatus.running, l, false))
            (append_assoc done (TaskStatus.skipped ∷ []) (map (λ t. TaskStatus.skipped) tasks)))

-- When the run is cancelled before the first of the tasks left, these are all skipped, and the action
-- still ends as successful.
pub cancelled_action_succeeds :
    (retries : ℕ) (tasks : List (ExecutionTask × Moment)) (done : List TaskStatus) (o : Outcome)
    (result : ActionResult)
    → All (λ t. (t.1.stopped ≡ false) × (t.1.cancelled ≡ true)) tasks
    → o.status ≡ (execute_tasks retries tasks ActionStatus.running done).0
    → ((execute_tasks retries tasks ActionStatus.running done).1
        ≡ done ++ map (λ t. TaskStatus.skipped) tasks)
      × ((finished_result o result).status ≡ ActionStatus.successful)
unfolding finished_result
cancelled_action_succeeds retries tasks done o result h e =
    let run = execute_tasks-cancelled retries tasks done h in
    (
      ap (λ r. r.1) run,
      ap (λ status. if is_running status then ActionStatus.successful else status)
          (e ∙ ap (λ r. r.0) run),
    )
