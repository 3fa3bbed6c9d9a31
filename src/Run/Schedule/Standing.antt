-- ===== src/Run/Schedule/Standing.antt =====
-- api/commands/run.ts: what a runner knows of names: which are alive, which were executed, and that
-- those taken as successful have a successful result.
use mathlib.Core.Bool.{false≢true}
use mathlib.Core.List.{map-append}
use dataform.Prelude.{
  ℕ, ◌+◌, ◌≤◌, ◌≡◌, refl, sym, ap, ◌∙◌, subst, String, Bool, true, false, not, eq_self, eq-cases,
  List, [], ◌∷◌, ◌++◌, map, filter, includes, Has, add, includes-add, add_all, includes-add_all,
  Has-map-filter, map-filter-Has, ◌==◌, inl, inr, ◌⊎◌, Bool-cases, count, count-append, arith,
}
use dataform.Proto.{ExecutionAction, ActionResult, ActionStatus, ExecutionGraph}
use dataform.Run.State.{Encodings, Runner, ExecutedAction, create, is_running, is_successful}
use dataform.Run.Schedule.{
  cancel_pending, is_executable, is_skippable, start_all, skip_all, execute_ready, Outcome,
  finish_action, record_execution, status_of, settle, complete, Step, completes, stops, cancels,
  times_out, Steps, next, Prepared, unprepared, stopped_early, cancelled_early, timed_out_early,
}
use dataform.Run.Schedule.Settled.{settle-IsSettled}
use dataform.Run.Schedule.Rounds.{IsRound, start_all-IsRound, execute_ready_cases}
use dataform.Run.Schedule.Accounts.{action_names, pending_parts}
use dataform.Run.Schedule.Keeping.{
  HasSuccess, Keeps, status_of-HasSuccess, start_all-Keeps, skip_all-Keeps, cancel_pending-Keeps,
  settle-Keeps,
}

module _ (env : Encodings) (graph : ExecutionGraph) where
  -- How often a name is that of an action that is pending or runs.
  abbrev pub alive : List ExecutionAction → List ExecutionAction → String → ℕ
  alive pending running n = count n (action_names pending) + count n (action_names running)

  pub record Standing (pending running : List ExecutionAction) (executed successful : List String)
      (results : List ActionResult) : Type 0 where
    -- No two actions that are pending or run have one name, and such an action was not executed.
    pub apart : (n : String) → alive pending running n ≤ 1
    pub done : (n : String) → Has executed n → alive pending running n ≡ 0
    pub within : (n : String) → Has successful n → Has executed n
    pub succeeded : (n : String) → Has successful n → HasSuccess results n

  abbrev pub IsStanding : Runner → Type 0
  IsStanding s = Standing s.pending s.running s.executed s.successful s.results

  HasSuccess-Keeps :
      (n : String) (before after : List ActionResult)
      → Keeps n before after
      → HasSuccess before n
      → HasSuccess after n
  HasSuccess-Keeps n before after keep (r, m, e, q) = (r, keep r e m, e, q)

  cancel_pending-IsStanding : (s : Runner) → IsStanding s → IsStanding (cancel_pending s)
  unfolding cancel_pending count
  cancel_pending-IsStanding s h = record {
    apart = λ n. omega (arith, h.apart n);
    done = λ n k. omega (arith, h.done n k);
    within = h.within;
    succeeded = λ n k.
        HasSuccess-Keeps n s.results _ (cancel_pending-Keeps env graph s n) (h.succeeded n k);
  }

  -- What a round leaves alive of a name.
  pub alive-IsRound :
      (s t : Runner) (n : String)
      → IsRound env graph s t
      → alive t.pending t.running n
          + count n (action_names (filter (is_skippable graph s) s.pending))
        ≡ alive s.pending s.running n
  alive-IsRound s t n r =
      let started = filter (is_executable graph s) s.pending in
      let e1 = ap (λ l. count n (action_names l)) r.pending in
      let e2 : count n (action_names t.running)
          ≡ count n (action_names s.running) + count n (action_names started) =
        ap (λ l. count n (action_names l)) r.running
        ∙ ap (count n) (map-append (λ a. a.name) s.running started)
        ∙ count-append n (action_names s.running) (action_names started) in
      omega (arith, pending_parts env graph s n, e1, e2)

  start_all-IsStanding :
      (s : Runner)
      → IsStanding s
      → IsStanding
          (start_all env graph (skip_all graph s) (filter (is_executable graph s) s.pending))
  start_all-IsStanding s h =
      let started = filter (is_executable graph s) s.pending in
      let t = start_all env graph (skip_all graph s) started in
      let r = start_all-IsRound env graph s in
      let keeps : (n : String) → alive s.pending s.running n ≡ 0 → Keeps n s.results t.results =
        λ n k q e m.
          start_all-Keeps env graph started (skip_all graph s) n
            (omega (arith, k, pending_parts env graph s n)) q e
            (skip_all-Keeps env graph s n q e m) in
      record {
        apart = λ n. omega (arith, h.apart n, alive-IsRound s t n r);
        done = λ n k.
            omega (arith, h.done n (subst (λ l. Has l n) r.executed k), alive-IsRound s t n r);
        within = λ n k.
            subst (λ l. Has l n) (sym r.executed)
              (h.within n (subst (λ l. Has l n) r.successful k));
        succeeded = λ n k.
            let before = subst (λ l. Has l n) r.successful k in
            HasSuccess-Keeps n s.results _ (keeps n (h.done n (h.within n before)))
              (h.succeeded n before);
      }

  pub execute_ready-IsStanding :
      (s : Runner) → IsStanding s → IsStanding (execute_ready env graph s)
  execute_ready-IsStanding s h =
      execute_ready_cases env graph IsStanding s (λ _. h) (λ _ _. cancel_pending-IsStanding s h)
        (λ _ _. start_all-IsStanding s h)

  record_execution-HasSuccess :
      (s : Runner) (a : ExecutionAction)
      → Has (record_execution env graph s a).successful a.name
      → includes s.successful a.name ≡ false
      → HasSuccess (record_execution env graph s a).results a.name
  unfolding record_execution
  record_execution-HasSuccess s a h new =
      elim (Bool-cases (is_successful (status_of env graph s a.name))) [
        | inl b ↦ status_of-HasSuccess env graph s a.name b
        | inr b ↦ absurd (false≢true (sym new ∙ (rw b at h)))
      ]

  finish_action-successful :
      (s : Runner) (a : ExecutionAction) (o : Outcome)
      → (finish_action env graph s a o).successful ≡ s.successful
  unfolding finish_action
  finish_action-successful s a o = ground arith

  -- A name is taken as successful only if it has a successful result.
  settle-HasSuccess :
      (s : Runner) (a : ExecutionAction) (o : Outcome)
      → Has (settle env graph s a o).successful a.name
      → includes s.successful a.name ≡ false
      → HasSuccess (settle env graph s a o).results a.name
  unfolding settle
  settle-HasSuccess s a o h new = elim (Bool-cases (is_running (status_of env graph s a.name))) [
    | inl b ↦ rw b (
        record_execution-HasSuccess (finish_action env graph s a o) a (rw b at h)
          (ap (λ l. includes l a.name) (finish_action-successful s a o) ∙ new))
    | inr b ↦ rw b (record_execution-HasSuccess s a (rw b at h) new)
  ]

  grown :
      (l m : List String) (x n : String)
      → (m ≡ l) ⊎ (m ≡ add l x)
      → Has m n
      → (x == n) ≡ false
      → Has l n
  grown l m x n (inl e) h other = subst (λ k. Has k n) e h
  grown l m x n (inr e) h other =
      let k = subst (λ k. Has k n) e h in ground (arith, includes-add l x n)

  -- The end of an action that is no longer among the running ones, and was not executed before.
  pub settle-IsStanding :
      (s : Runner) (a : ExecutionAction) (o : Outcome)
      → alive s.pending s.running a.name ≡ 0
      → includes s.executed a.name ≡ false
      → IsStanding s
      → IsStanding (settle env graph s a o)
  settle-IsStanding s a o gone new h =
      let t = settle env graph s a o in
      let f = settle-IsSettled env graph s a o in
      let same : (n : String) → alive t.pending t.running n ≡ alive s.pending s.running n = λ n.
        ap (λ l. count n (action_names l) + count n (action_names t.running)) f.same_pending
        ∙ ap (λ l. count n (action_names s.pending) + count n (action_names l)) f.same_running in
      record {
        apart = λ n. rw (same n) (h.apart n);
        done = λ n k. same n ∙ (elim (eq-cases a.name n) [
          | inl (_, e) ↦ subst (λ m. alive s.pending s.running m ≡ 0) e gone
          | inr (b, _) ↦ h.done n (grown s.executed t.executed a.name n (inr f.executed) k b)
        ]);
        within = λ n k.
            subst (λ l. Has l n) (sym f.executed)
              (elim (eq-cases a.name n) [
                | inl (b, _) ↦ ground (arith, includes-add s.executed a.name n)
                | inr (b, _) ↦
                    let m =
                      h.within n (grown s.successful t.successful a.name n f.successful k b) in
                    ground (arith, includes-add s.executed a.name n)
              ]);
        succeeded = λ n k. elim (eq-cases a.name n) [
          | inl (_, e) ↦ subst (HasSuccess t.results) e (
              settle-HasSuccess s a o (subst (Has t.successful) (sym e) k)
                (elim (Bool-cases (includes s.successful a.name)) [
                  | inl m ↦ absurd (false≢true (sym new ∙ h.within a.name m))
                  | inr m ↦ m
                ]))
          | inr (b, _) ↦
              HasSuccess-Keeps n s.results _ (settle-Keeps env graph s a o n b)
                (h.succeeded n (grown s.successful t.successful a.name n f.successful k b))
        ];
      }

  -- A running action is alive once, and not executed.
  pub alive-running :
      (s : Runner) (before after : List ExecutionAction) (a : ExecutionAction) (n : String)
      → s.running ≡ before ++ a ∷ after
      → alive s.pending s.running n ≡ alive s.pending (before ++ after) n + count n (a.name ∷ [])
  unfolding count
  alive-running s before after a n e =
      let e1 : count n (action_names s.running)
          ≡ count n (action_names before) + count n (a.name ∷ action_names after) =
        ap (λ l. count n (action_names l)) e
        ∙ ap (count n) (map-append (λ b. b.name) before (a ∷ after))
        ∙ count-append n (action_names before) (a.name ∷ action_names after) in
      let e2 : count n (action_names (before ++ after))
          ≡ count n (action_names before) + count n (action_names after) =
        ap (count n) (map-append (λ b. b.name) before after)
        ∙ count-append n (action_names before) (action_names after) in
      ground arith

  count_self : (n : String) → count n (n ∷ []) ≡ 1
  unfolding count
  count_self n = ground (arith, eq_self n)

  -- What a running action leaves when it ends.
  pub left-IsStanding :
      (s : Runner) (before after : List ExecutionAction) (a : ExecutionAction)
      → s.running ≡ before ++ a ∷ after
      → IsStanding s
      → (alive s.pending (before ++ after) a.name ≡ 0)
        × (includes s.executed a.name ≡ false)
        × IsStanding (record s { running = before ++ after })
  left-IsStanding s before after a e h =
      let self = alive-running s before after a a.name e in
      (
        omega (arith, self, count_self a.name, h.apart a.name),
        elim (Bool-cases (includes s.executed a.name)) [
          | inl k ↦ absurd (omega (arith, self, count_self a.name, h.done a.name k))
          | inr k ↦ k
        ],
        record {
          apart = λ n. omega (arith, h.apart n, alive-running s before after a n e);
          done = λ n k. omega (arith, h.done n k, alive-running s before after a n e);
          within = h.within;
          succeeded = h.succeeded;
        },
      )

  complete-IsStanding :
      (s : Runner) (before after : List ExecutionAction) (a : ExecutionAction) (o : Outcome)
      → s.running ≡ before ++ a ∷ after
      → IsStanding s
      → IsStanding (complete env graph (record s { running = before ++ after }) a o)
  unfolding complete
  complete-IsStanding s before after a o e h =
      let (gone, new, k) = left-IsStanding s before after a e h in
      execute_ready-IsStanding (settle env graph (record s { running = before ++ after }) a o)
        (settle-IsStanding (record s { running = before ++ after }) a o gone new k)

  pub Step-IsStanding : (s t : Runner) → Step env graph s t → IsStanding s → IsStanding t
  Step-IsStanding s t (completes before after a o e l e') h =
      subst IsStanding (sym e') (complete-IsStanding s before after a o e h)
  Step-IsStanding s t (stops e) h = subst IsStanding (sym e) h
  Step-IsStanding s t (cancels e) h = subst IsStanding (sym e) h
  Step-IsStanding s t (times_out e) h = subst IsStanding (sym e) h

  pub Steps-IsStanding : (s t : Runner) → Steps env graph s t → IsStanding s → IsStanding t
  Steps-IsStanding s t Steps.here h = h
  Steps-IsStanding s t (next {t = u} steps step) h =
      Step-IsStanding u t step (Steps-IsStanding s u steps h)

  pub Prepared-IsStanding : (s t : Runner) → Prepared env graph s t → IsStanding s → IsStanding t
  Prepared-IsStanding s t unprepared h = h
  Prepared-IsStanding s t (stopped_early {t = u} p) h = Prepared-IsStanding s u p h
  Prepared-IsStanding s t (cancelled_early {t = u} p) h = Prepared-IsStanding s u p h
  Prepared-IsStanding s t (timed_out_early {t = u} p) h = Prepared-IsStanding s u p h

  count-filter :
      (p : ExecutionAction → Bool) (actions : List ExecutionAction) (n : String)
      → count n (action_names (filter p actions)) ≤ count n (action_names actions)
  unfolding count
  count-filter p [] n = omega arith
  count-filter p (a ∷ actions) n = ground (arith, count-filter p actions n)

  count-absent :
      (names : List String) (actions : List ExecutionAction) (n : String)
      → Has names n
      → count n (action_names (filter (λ a. not (includes names a.name)) actions)) ≡ 0
  unfolding count
  count-absent names [] n h = refl
  count-absent names (a ∷ actions) n h = elim (eq-cases a.name n) [
    | inl (_, e) ↦
        let k : includes names a.name ≡ true = subst (Has names) (sym e) h in
        ground (arith, count-absent names actions n h)
    | inr (b, _) ↦ ground (arith, count-absent names actions n h)
  ]

  successful_ended :
      (results : List ActionResult) (n : String)
      → HasSuccess results n
      → Has (map (λ r. r.name) (filter (λ r. not (is_running r.status)) results)) n
  successful_ended results n (r, m, e, q) =
      subst (Has (map (λ r. r.name) (filter (λ r. not (is_running r.status)) results))) e
        (map-filter-Has (λ r. r.name) (λ r. not (is_running r.status)) results m (ended r.status q))
    where
      ended : (status : ActionStatus) → is_successful status ≡ true → not (is_running status) ≡ true
      ended ActionStatus.running h = absurd (false≢true h)
      ended ActionStatus.successful h = refl
      ended ActionStatus.cache_skipped h = refl
      ended ActionStatus.disabled h = refl
      ended _ h = refl

  added : (names : List String) (n : String) → includes (add_all [] names) n ≡ includes names n
  unfolding includes
  added names n = includes-add_all [] names n

  pub create-IsStanding :
      (results : List ActionResult) (previous : List ExecutedAction)
      → ((n : String) → count n (action_names graph.actions) ≤ 1)
      → IsStanding (create env graph results previous)
  unfolding create count
  create-IsStanding results previous distinct =
      let good : (n : String)
          → Has (create env graph results previous).successful n
          → HasSuccess results n =
        λ n k.
          let (r, m, e, q) =
            Has-map-filter (λ r. r.name) (λ r. is_successful r.status) results n
              (sym (added _ n) ∙ k) in
          (r, m, e, q) in
      record {
        apart = λ n. omega (
          arith,
          distinct n,
          count-filter (λ a. not (includes (create env graph results previous).executed a.name))
              graph.actions n,
        );
        done = λ n k. omega (arith, count-absent _ graph.actions n k);
        within = λ n k. added _ n ∙ successful_ended results n (good n k);
        succeeded = good;
      }
