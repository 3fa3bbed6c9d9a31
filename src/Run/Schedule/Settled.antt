-- ===== src/Run/Schedule/Settled.antt =====
-- api/commands/run.ts: what the completion of an action changes before the next actions are started.
use dataform.Prelude.{
  ◌≡◌, refl, ap, String, List, [], ◌∷◌, map, add, inl, inr, ◌⊎◌, Bool-cases, arith,
}
use dataform.Proto.{ExecutionAction, ActionResult, ExecutionGraph}
use dataform.Run.State.{Encodings, Runner, is_running, is_successful}
use dataform.Run.Schedule.{
  update_result, Outcome, finished_result, finish_action, record_execution, status_of, settle,
}

abbrev pub result_names : List ActionResult → List String
result_names results = map (λ r. r.name) results

pub result_names-update_result :
    (name : String) (f : ActionResult → ActionResult) (results : List ActionResult)
    → ((r : ActionResult) → (f r).name ≡ r.name)
    → result_names (update_result name f results) ≡ result_names results
unfolding update_result
result_names-update_result name f [] h = refl
result_names-update_result name f (r ∷ results) h =
    ground (arith, h r, result_names-update_result name f results h)

module _ (env : Encodings) (graph : ExecutionGraph) where
  -- The scheduling part of the state.
  pub record IsSettled (s : Runner) (a : ExecutionAction) (t : Runner) : Type 0 where
    pub same_pending : t.pending ≡ s.pending
    pub same_running : t.running ≡ s.running
    pub same_stopped : t.stopped ≡ s.stopped
    pub same_cancelled : t.cancelled ≡ s.cancelled
    pub same_timed_out : t.timed_out ≡ s.timed_out
    pub same_names : result_names t.results ≡ result_names s.results
    pub executed : t.executed ≡ add s.executed a.name
    pub successful : (t.successful ≡ s.successful) ⊎ (t.successful ≡ add s.successful a.name)

  record IsFinished (s t : Runner) : Type 0 where
    same_pending : t.pending ≡ s.pending
    same_running : t.running ≡ s.running
    same_stopped : t.stopped ≡ s.stopped
    same_cancelled : t.cancelled ≡ s.cancelled
    same_timed_out : t.timed_out ≡ s.timed_out
    same_names : result_names t.results ≡ result_names s.results
    same_executed : t.executed ≡ s.executed
    same_successful : t.successful ≡ s.successful

  finished_result_name : (o : Outcome) (r : ActionResult) → (finished_result o r).name ≡ r.name
  unfolding finished_result
  finished_result_name o r = refl

  finish_action-IsFinished :
      (s : Runner) (a : ExecutionAction) (o : Outcome)
      → IsFinished s (finish_action env graph s a o)
  unfolding finish_action
  finish_action-IsFinished s a o = elim (Bool-cases s.stopped) [
    | inl e ↦
        rw (e, finish_action)
          (record {
            same_pending = refl;
            same_running = refl;
            same_stopped = refl;
            same_cancelled = refl;
            same_timed_out = refl;
            same_names = result_names-update_result a.name _ s.results (λ r. refl);
            same_executed = refl;
            same_successful = refl;
          })
    | inr e ↦
        rw (e, finish_action)
          (record {
            same_pending = refl;
            same_running = refl;
            same_stopped = refl;
            same_cancelled = refl;
            same_timed_out = refl;
            same_names = result_names-update_result a.name _ s.results (finished_result_name o);
            same_executed = refl;
            same_successful = refl;
          })
  ]

  record_execution-IsSettled :
      (s t : Runner) (a : ExecutionAction)
      → IsFinished s t
      → IsSettled s a (record_execution env graph t a)
  unfolding record_execution
  record_execution-IsSettled s t a f = record {
    same_pending = f.same_pending;
    same_running = f.same_running;
    same_stopped = f.same_stopped;
    same_cancelled = f.same_cancelled;
    same_timed_out = f.same_timed_out;
    same_names = f.same_names;
    executed = ap (λ l. add l a.name) f.same_executed;
    successful = elim (Bool-cases (is_successful (status_of env graph t a.name))) [
      | inl e ↦ inr (rw e (ap (λ l. add l a.name) f.same_successful))
      | inr e ↦ inl (rw e f.same_successful)
    ];
  }

  pub settle-IsSettled :
      (s : Runner) (a : ExecutionAction) (o : Outcome) → IsSettled s a (settle env graph s a o)
  unfolding settle
  settle-IsSettled s a o = elim (Bool-cases (is_running (status_of env graph s a.name))) [
    | inl e ↦ rw e (
        record_execution-IsSettled s (finish_action env graph s a o) a
          (finish_action-IsFinished s a o))
    | inr e ↦ rw e (
        record_execution-IsSettled s s a (record {
          same_pending = refl;
          same_running = refl;
          same_stopped = refl;
          same_cancelled = refl;
          same_timed_out = refl;
          same_names = refl;
          same_executed = refl;
          same_successful = refl;
        }))
  ]
