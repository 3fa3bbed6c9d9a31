-- ===== src/Run/Schedule/Rounds.antt =====
-- api/commands/run.ts: one call of `executeAllActionsReadyForExecution` in closed form.
use dataform.Prelude.{
  ℕ, zero, suc, ◌≡◌, refl, sym, ap, ◌∙◌, subst, Bool, true, false, List, [], ◌∷◌, ◌++◌, map,
  append-nil, append_assoc, if◌then◌else◌, ltb, length, filter, inl, inr, Bool-cases, arith,
}
use dataform.Proto.{ExecutionAction, ActionResult, ExecutionGraph}
use dataform.Run.State.{Encodings, Runner}
use dataform.Run.Schedule.{
  skipped_result, cancel_pending, is_executable, is_skippable, is_still_pending, start, start_all,
  skip_all, execute_ready_within, execute_ready,
}

filter-none {ℓ} :
    {A : Type ℓ} (p q : A → Bool) (xs : List A)
    → ((x : A) → p x ≡ true → q x ≡ false)
    → filter q (filter p xs) ≡ []
filter-none p q [] h = refl
filter-none p q (x ∷ xs) h = elim (Bool-cases (p x)) [
  | inl e ↦ rw (e, h x e) (filter-none p q xs h)
  | inr e ↦ rw e (filter-none p q xs h)
]

filter-filter_self {ℓ} :
    {A : Type ℓ} (p : A → Bool) (xs : List A) → filter p (filter p xs) ≡ filter p xs
filter-filter_self p [] = refl
filter-filter_self p (x ∷ xs) = elim (Bool-cases (p x)) [
  | inl e ↦ rw (e, e) (ap (λ l. x ∷ l) (filter-filter_self p xs))
  | inr e ↦ rw e (filter-filter_self p xs)
]

module _ (graph : ExecutionGraph) where
  -- Of what is still pending nothing is executable or skippable.
  still_pending-executable :
      (s : Runner) (a : ExecutionAction)
      → is_still_pending graph s a ≡ true
      → is_executable graph s a ≡ false
  unfolding is_still_pending
  still_pending-executable s a h = ground arith

  still_pending-skippable :
      (s : Runner) (a : ExecutionAction)
      → is_still_pending graph s a ≡ true
      → is_skippable graph s a ≡ false
  unfolding is_still_pending
  still_pending-skippable s a h = ground arith

  -- The same tests hold after the skips, since these execute nothing.
  executable-skip_all :
      (s : Runner) (a : ExecutionAction)
      → is_executable graph (skip_all graph s) a ≡ is_executable graph s a
  unfolding is_executable skip_all
  executable-skip_all s a = refl

  skippable-skip_all :
      (s : Runner) (a : ExecutionAction)
      → is_skippable graph (skip_all graph s) a ≡ is_skippable graph s a
  unfolding is_skippable skip_all
  skippable-skip_all s a = refl

  still_pending-skip_all :
      (s : Runner) (a : ExecutionAction)
      → is_still_pending graph (skip_all graph s) a ≡ is_still_pending graph s a
  unfolding is_still_pending skip_all
  still_pending-skip_all s a = refl

  executable_none :
      (s : Runner) → filter (is_executable graph (skip_all graph s)) (skip_all graph s).pending ≡ []
  unfolding skip_all is_executable
  executable_none s =
      filter-none (is_still_pending graph s) (is_executable graph s) s.pending
        (still_pending-executable s)

  skippable_none :
      (s : Runner) → filter (is_skippable graph (skip_all graph s)) (skip_all graph s).pending ≡ []
  unfolding skip_all is_skippable
  skippable_none s =
      filter-none (is_still_pending graph s) (is_skippable graph s) s.pending
        (still_pending-skippable s)

  skip_all-skip_all : (s : Runner) → skip_all graph (skip_all graph s) ≡ skip_all graph s
  unfolding skip_all
  skip_all-skip_all s =
      let t = skip_all graph s in
      same_fields t (filter-filter_self (is_still_pending graph s) s.pending)
        (ap (λ l. t.results ++ map skipped_result l) (skippable_none s) ∙ append-nil t.results)
    where
      same_fields :
          (t : Runner) {pending : List ExecutionAction} {results : List ActionResult}
          → pending ≡ t.pending
          → results ≡ t.results
          → record t { pending = pending; results = results } ≡ t
      same_fields t p q = λ i. record t { pending = p i; results = q i }

-- The calls of the function within one call.
module _ (env : Encodings) (graph : ExecutionGraph) where
  within_live :
      (depth : ℕ) (s : Runner)
      → s.stopped ≡ false
      → s.cancelled ≡ false
      → execute_ready_within env graph (suc depth) s
        ≡ start_all env graph
            (if ltb 0 (length (filter (is_skippable graph s) s.pending))
              then execute_ready_within env graph depth (skip_all graph s)
              else skip_all graph s)
            (filter (is_executable graph s) s.pending)
  unfolding execute_ready_within
  within_live depth s live going = ground arith

  if_same {ℓ} : {A : Type ℓ} (b : Bool) {x y z : A} → x ≡ z → y ≡ z → (if b then x else y) ≡ z
  if_same true p q = p
  if_same false p q = q

  -- The flags are not changed by skips.
  flags-skip_all :
      (s : Runner)
      → ((skip_all graph s).stopped ≡ s.stopped) × ((skip_all graph s).cancelled ≡ s.cancelled)
  unfolding skip_all
  flags-skip_all s = (refl, refl)

  -- The call that follows a skip finds nothing to do.
  within-skip_all :
      (depth : ℕ) (s : Runner)
      → s.stopped ≡ false
      → s.cancelled ≡ false
      → execute_ready_within env graph depth (skip_all graph s) ≡ skip_all graph s
  unfolding execute_ready_within start_all
  within-skip_all zero s live going = refl
  within-skip_all (suc depth) s live going =
      let t = skip_all graph s in
      let live' = (flags-skip_all s).0 ∙ live in
      let going' = (flags-skip_all s).1 ∙ going in
      let u =
        (if ltb 0 (length (filter (is_skippable graph t) t.pending))
          then execute_ready_within env graph depth (skip_all graph t)
          else skip_all graph t) in
      within_live depth t live' going'
      ∙ ap (λ l. start_all env graph u l) (executable_none graph s)
      ∙ if_same (ltb 0 (length (filter (is_skippable graph t) t.pending)))
          (ap (execute_ready_within env graph depth) (skip_all-skip_all graph s)
            ∙ within-skip_all depth s live going)
          (skip_all-skip_all graph s)

  -- One call in closed form: what is skippable is skipped, what is executable is started, and the
  -- nested calls change nothing.
  pub execute_ready_live :
      (s : Runner)
      → s.stopped ≡ false
      → s.cancelled ≡ false
      → execute_ready env graph s
        ≡ start_all env graph (skip_all graph s) (filter (is_executable graph s) s.pending)
  unfolding execute_ready
  execute_ready_live s live going =
      within_live (length s.pending) s live going
      ∙ ap (λ t. start_all env graph t (filter (is_executable graph s) s.pending))
          (if_same (ltb 0 (length (filter (is_skippable graph s) s.pending)))
            (within-skip_all (length s.pending) s live going) refl)

  pub execute_ready_stopped : (s : Runner) → s.stopped ≡ true → execute_ready env graph s ≡ s
  unfolding execute_ready execute_ready_within
  execute_ready_stopped s h = ground arith

  pub execute_ready_cancelled :
      (s : Runner)
      → s.stopped ≡ false
      → s.cancelled ≡ true
      → execute_ready env graph s ≡ cancel_pending s
  unfolding execute_ready execute_ready_within
  execute_ready_cancelled s live h = ground arith

  -- A call has one of three effects.
  pub execute_ready_cases :
      (P : Runner → Type 0) (s : Runner)
      → (s.stopped ≡ true → P s)
      → (s.stopped ≡ false → s.cancelled ≡ true → P (cancel_pending s))
      → (s.stopped ≡ false
          → s.cancelled ≡ false
          → P (start_all env graph (skip_all graph s) (filter (is_executable graph s) s.pending)))
      → P (execute_ready env graph s)
  execute_ready_cases P s when_stopped when_cancelled when_live = elim (Bool-cases s.stopped) [
    | inl h ↦ subst P (sym (execute_ready_stopped s h)) (when_stopped h)
    | inr live ↦ elim (Bool-cases s.cancelled) [
      | inl h ↦ subst P (sym (execute_ready_cancelled s live h)) (when_cancelled live h)
      | inr going ↦ subst P (sym (execute_ready_live s live going)) (when_live live going)
    ]
  ]

  -- What a call that is neither stopped nor cancelled leaves.
  pub record IsRound (s t : Runner) : Type 0 where
    pub pending : t.pending ≡ filter (is_still_pending graph s) s.pending
    pub running : t.running ≡ s.running ++ filter (is_executable graph s) s.pending
    pub executed : t.executed ≡ s.executed
    pub successful : t.successful ≡ s.successful
    pub stopped : t.stopped ≡ s.stopped
    pub cancelled : t.cancelled ≡ s.cancelled

  record IsStarted (s : Runner) (actions : List ExecutionAction) (t : Runner) : Type 0 where
    pending : t.pending ≡ s.pending
    running : t.running ≡ s.running ++ actions
    executed : t.executed ≡ s.executed
    successful : t.successful ≡ s.successful
    stopped : t.stopped ≡ s.stopped
    cancelled : t.cancelled ≡ s.cancelled

  start_all-IsStarted :
      (actions : List ExecutionAction) (s : Runner)
      → IsStarted s actions (start_all env graph s actions)
  unfolding start_all start
  start_all-IsStarted [] s = record {
    pending = refl;
    running = sym (append-nil s.running);
    executed = refl;
    successful = refl;
    stopped = refl;
    cancelled = refl;
  }
  start_all-IsStarted (a ∷ actions) s =
      let f = start_all-IsStarted actions (start env graph s a) in
      record {
        pending = f.pending;
        running = f.running ∙ append_assoc s.running (a ∷ []) actions;
        executed = f.executed;
        successful = f.successful;
        stopped = f.stopped;
        cancelled = f.cancelled;
      }

  pub start_all-IsRound :
      (s : Runner)
      → IsRound s
          (start_all env graph (skip_all graph s) (filter (is_executable graph s) s.pending))
  unfolding skip_all
  start_all-IsRound s =
      let f = start_all-IsStarted (filter (is_executable graph s) s.pending) (skip_all graph s) in
      record {
        pending = f.pending;
        running = f.running;
        executed = f.executed;
        successful = f.successful;
        stopped = f.stopped;
        cancelled = f.cancelled;
      }
