-- ===== src/Run/Schedule/Orphans.antt =====
-- api/commands/run.ts: what becomes of an action that depends on a skipped one.
use mathlib.Core.Bool.{false≢true}
use dataform.Prelude.{
  ◌+◌, ◌≤◌, ◌≡◌, refl, sym, ap, ◌∙◌, subst, String, Bool, true, false, ◌==◌, eq_iff, List, [], ◌∷◌,
  ◌++◌, map, filter, Elem, here, there, filter-Elem, Elem-append, includes, Has, add, includes-add,
  inl, inr, ◌⊎◌, Bool-cases, count, arith,
}
use dataform.Proto.{ExecutionAction, ActionResult, ActionStatus, ExecutionGraph}
use dataform.Run.State.{Encodings, Runner, ExecutedAction, create, all_action_names}
use dataform.Run.Schedule.{
  skipped_result, depends_within, cancel_pending, is_executable, is_skippable, is_still_pending,
  start_all, skip_all, execute_ready, Outcome, is_left, settle, complete, Step, completes, stops,
  cancels, times_out, Steps, next, Prepared, unprepared, stopped_early, cancelled_early,
  timed_out_early,
}
use dataform.Run.Schedule.Settled.{result_names, settle-IsSettled}
use dataform.Run.Schedule.Rounds.{start_all-IsRound, execute_ready_cases}
use dataform.Run.Schedule.Accounts.{action_names, pending_or_one_result, pending-create}
use dataform.Run.Schedule.Standing.{
  alive, alive-IsRound, alive-running, IsStanding, left-IsStanding, execute_ready-IsStanding,
  Step-IsStanding, settle-IsStanding, Prepared-IsStanding, create-IsStanding,
}
use dataform.Run.Schedule.Skips.{IsSkipped, start_all-NoNewSkips, settle-NoNewSkips}
use dataform.Run.Schedule.Order.{depends_within-Has, depends_within_mono}

module _ (env : Encodings) (graph : ExecutionGraph) where
  not-depends_within :
      (names done : List String) (a : ExecutionAction) (d : String)
      → Has a.dependencies d
      → Has names d
      → includes done d ≡ false
      → depends_within names done a ≡ false
  not-depends_within names done a d m n absent = elim (Bool-cases (depends_within names done a)) [
    | inl h ↦ let k = depends_within-Has names done a d h m n in cc
    | inr h ↦ h
  ]

  -- A skipped action is neither alive nor executed, and an action that is not pending any more had all
  -- its dependencies executed, unless the run was cancelled.
  pub record IsSkipping (s : Runner) : Type 0 where
    pub dead :
        (r : ActionResult)
        → Elem r s.results
        → IsSkipped r
        → (alive env graph s.pending s.running r.name ≡ 0) × (includes s.executed r.name ≡ false)
    pub ready :
        s.cancelled ≡ false
        → (a : ExecutionAction) → Elem a graph.actions
        → Elem a s.pending ⊎ (depends_within (all_action_names graph) s.executed a ≡ true)

  count-Elem :
      (a : ExecutionAction) (actions : List ExecutionAction)
      → Elem a actions
      → 1 ≤ count a.name (action_names actions)
  unfolding count
  count-Elem a [] m = elim m [ ]
  count-Elem a (b ∷ actions) (here same) =
      let k : (b.name == a.name) ≡ true = (eq_iff b.name a.name).1 (ap (λ x. x.name) (sym same)) in
      ground arith
  count-Elem a (b ∷ actions) (there m) = ground (arith, count-Elem a actions m)

  skipped_result-Elem :
      (r : ActionResult) (actions : List ExecutionAction)
      → Elem r (map skipped_result actions)
      → (a : ExecutionAction) × Elem a actions × (r.name ≡ a.name)
  skipped_result-Elem r [] m = elim m [ ]
  skipped_result-Elem r (a ∷ actions) (here same) = (a, here refl, ap (λ x. x.name) same)
  skipped_result-Elem r (a ∷ actions) (there m) =
      let (b, k, e) = skipped_result-Elem r actions m in (b, there k, e)

  not_executed :
      (s : Runner) (n : String)
      → IsStanding env graph s
      → 1 ≤ alive env graph s.pending s.running n
      → includes s.executed n ≡ false
  not_executed s n h k = elim (Bool-cases (includes s.executed n)) [
    | inl e ↦ absurd (omega (arith, k, h.done n e))
    | inr e ↦ e
  ]

  cancel_pending-IsSkipping :
      (s : Runner)
      → s.cancelled ≡ true
      → IsStanding env graph s
      → IsSkipping s
      → IsSkipping (cancel_pending s)
  unfolding cancel_pending count
  cancel_pending-IsSkipping s over h k = record {
    dead = λ r m e. elim (Elem-append s.results (map skipped_result s.pending) m) [
      | inl old ↦ let (gone, new) = k.dead r old e in (omega (arith, gone), new)
      | inr fresh ↦
          let (a, place, named) = skipped_result-Elem r s.pending fresh in
          let one =
            subst (λ n. 1 ≤ count n (action_names s.pending)) (sym named)
              (count-Elem a s.pending place) in
          (omega (arith, one, h.apart r.name), not_executed s r.name h (omega (arith, one)))
    ];
    ready = λ going. absurd (false≢true (sym going ∙ over));
  }

  parts :
      (s : Runner) (a : ExecutionAction)
      → (is_executable graph s a ≡ true)
        ⊎ (is_skippable graph s a ≡ true)
        ⊎ (is_still_pending graph s a ≡ true)
  unfolding is_still_pending
  parts s a = ground arith

  executable-depends_within :
      (s : Runner) (a : ExecutionAction)
      → is_executable graph s a ≡ true
      → depends_within (all_action_names graph) s.successful a ≡ true
  unfolding is_executable
  executable-depends_within s a h = h

  skippable-depends_within :
      (s : Runner) (a : ExecutionAction)
      → is_skippable graph s a ≡ true
      → depends_within (all_action_names graph) s.executed a ≡ true
  unfolding is_skippable
  skippable-depends_within s a h = ground arith

  skip_all-results :
      (s : Runner)
      → (skip_all graph s).results
        ≡ s.results ++ map skipped_result (filter (is_skippable graph s) s.pending)
  unfolding skip_all
  skip_all-results s = refl

  start_all-IsSkipping :
      (s : Runner)
      → IsStanding env graph s
      → IsSkipping s
      → IsSkipping
          (start_all env graph (skip_all graph s) (filter (is_executable graph s) s.pending))
  start_all-IsSkipping s h k =
      let started = filter (is_executable graph s) s.pending in
      let skipped = filter (is_skippable graph s) s.pending in
      let t = start_all env graph (skip_all graph s) started in
      let f = start_all-IsRound env graph s in
      record {
        dead = λ r m e.
            elim (Elem-append s.results (map skipped_result skipped) (
              subst (Elem r) (skip_all-results s)
                (start_all-NoNewSkips env graph started (skip_all graph s) r e m))) [
                  | inl old ↦
                      let (gone, new) = k.dead r old e in
                      (
                        omega (arith, gone, alive-IsRound env graph s t r.name f),
                        ap (λ l. includes l r.name) f.executed ∙ new,
                      )
                  | inr fresh ↦
                      let (a, place, named) = skipped_result-Elem r skipped fresh in
                      let one =
                        subst (λ n. 1 ≤ count n (action_names skipped)) (sym named)
                          (count-Elem a skipped place) in
                      let sum = alive-IsRound env graph s t r.name f in
                      (
                        omega (arith, one, sum, h.apart r.name),
                        ap (λ l. includes l r.name) f.executed
                            ∙ not_executed s r.name h (omega (arith, one, sum)),
                      )
                ];
        ready = λ going a place.
            let within : depends_within (all_action_names graph) s.executed a ≡ true
                → depends_within (all_action_names graph) t.executed a ≡ true =
              λ d.
                subst (λ l. depends_within (all_action_names graph) l a ≡ true) (sym f.executed)
                  d in
            elim (k.ready (sym f.cancelled ∙ going) a place) [
              | inr d ↦ inr (within d)
              | inl pending ↦ elim (parts s a) [
                | inl x ↦ inr (
                    within (
                      depends_within_mono (all_action_names graph) s.successful s.executed a
                        h.within (executable-depends_within s a x)))
                | inr (inl x) ↦ inr (within (skippable-depends_within s a x))
                | inr (inr x) ↦ inl (
                    subst (Elem a) (sym f.pending)
                      (filter-Elem (is_still_pending graph s) s.pending pending x))
              ]
            ];
      }

  execute_ready-IsSkipping :
      (s : Runner) → IsStanding env graph s → IsSkipping s → IsSkipping (execute_ready env graph s)
  execute_ready-IsSkipping s h k =
      execute_ready_cases env graph IsSkipping s (λ _. k)
        (λ _ over. cancel_pending-IsSkipping s over h k) (λ _ _. start_all-IsSkipping s h k)

  other_name :
      (executed : List String) (name n : String)
      → includes executed n ≡ false
      → count n (name ∷ []) ≡ 0
      → includes (add executed name) n ≡ false
  unfolding count
  other_name executed name n new h = ground (arith, includes-add executed name n)

  settle-IsSkipping :
      (s : Runner) (before after : List ExecutionAction) (a : ExecutionAction) (o : Outcome)
      → s.running ≡ before ++ a ∷ after
      → is_left o.status ≡ true
      → IsSkipping s
      → IsSkipping (settle env graph (record s { running = before ++ after }) a o)
  settle-IsSkipping s before after a o e l k =
      let r : Runner = record s { running = before ++ after } in
      let f = settle-IsSettled env graph r a o in
      let t = settle env graph r a o in
      record {
        dead = λ q m z.
            let (gone, new) = k.dead q (settle-NoNewSkips env graph r a o l q z m) z in
            let sum = alive-running env graph s before after a q.name e in
            (
              ap (λ x. count q.name (action_names x) + count q.name (action_names t.running))
                    f.same_pending
                  ∙ ap (λ x. count q.name (action_names s.pending) + count q.name (action_names x))
                      f.same_running
                  ∙ omega (arith, gone, sum),
              ap (λ x. includes x q.name) f.executed
                  ∙ other_name s.executed a.name q.name new (omega (arith, gone, sum)),
            );
        ready = λ going b place. elim (k.ready (sym f.same_cancelled ∙ going) b place) [
          | inl pending ↦ inl (subst (Elem b) (sym f.same_pending) pending)
          | inr d ↦ inr (
              subst (λ x. depends_within (all_action_names graph) x b ≡ true) (sym f.executed)
                (depends_within_mono (all_action_names graph) s.executed (add s.executed a.name) b
                  (λ n h. ground (arith, includes-add s.executed a.name n)) d))
        ];
      }

  -- What is known of the names goes with it.
  abbrev IsTracked : Runner → Type 0
  IsTracked s = IsStanding env graph s × IsSkipping s

  complete-IsSkipping :
      (s : Runner) (before after : List ExecutionAction) (a : ExecutionAction) (o : Outcome)
      → s.running ≡ before ++ a ∷ after
      → is_left o.status ≡ true
      → IsTracked s
      → IsSkipping (complete env graph (record s { running = before ++ after }) a o)
  unfolding complete
  complete-IsSkipping s before after a o e l (h, k) =
      let (gone, new, r) = left-IsStanding env graph s before after a e h in
      execute_ready-IsSkipping (settle env graph (record s { running = before ++ after }) a o)
        (settle-IsStanding env graph (record s { running = before ++ after }) a o gone new r)
        (settle-IsSkipping s before after a o e l k)

  -- A change of the flags only.
  flagged :
      (s : Runner) (stopped cancelled timed_out : Bool)
      → (cancelled ≡ false → s.cancelled ≡ false)
      → IsSkipping s
      → IsSkipping (record s { stopped = stopped; cancelled = cancelled; timed_out = timed_out })
  flagged s stopped cancelled timed_out h k = record {
    dead = k.dead;
    ready = λ going. k.ready (h going);
  }

  Step-IsTracked : (s t : Runner) → Step env graph s t → IsTracked s → IsTracked t
  Step-IsTracked s t step (h, k) = (Step-IsStanding env graph s t step h, skipping step)
    where
      skipping : Step env graph s t → IsSkipping t
      skipping (completes before after a o e l e') =
          subst IsSkipping (sym e') (complete-IsSkipping s before after a o e l (h, k))
      skipping (stops e) =
          subst IsSkipping (sym e) (flagged s true s.cancelled s.timed_out (λ x. x) k)
      skipping (cancels e) =
          subst IsSkipping (sym e)
            (flagged s s.stopped true s.timed_out (λ x. absurd (false≢true (sym x))) k)
      skipping (times_out e) =
          subst IsSkipping (sym e)
            (flagged s s.stopped true true (λ x. absurd (false≢true (sym x))) k)

  Steps-IsTracked : (s t : Runner) → Steps env graph s t → IsTracked s → IsTracked t
  Steps-IsTracked s t Steps.here h = h
  Steps-IsTracked s t (next {t = u} steps step) h =
      Step-IsTracked u t step (Steps-IsTracked s u steps h)

  Prepared-IsSkipping : (s t : Runner) → Prepared env graph s t → IsSkipping s → IsSkipping t
  Prepared-IsSkipping s t unprepared k = k
  Prepared-IsSkipping s t (stopped_early {t = u} p) k =
      flagged u true u.cancelled u.timed_out (λ x. x) (Prepared-IsSkipping s u p k)
  Prepared-IsSkipping s t (cancelled_early {t = u} p) k =
      flagged u u.stopped true u.timed_out (λ x. absurd (false≢true (sym x)))
        (Prepared-IsSkipping s u p k)
  Prepared-IsSkipping s t (timed_out_early {t = u} p) k =
      flagged u u.stopped true true (λ x. absurd (false≢true (sym x))) (Prepared-IsSkipping s u p k)

  no_results : (previous : List ExecutedAction) → (create env graph [] previous).results ≡ []
  unfolding create
  no_results previous = refl

  create-IsSkipping :
      (previous : List ExecutedAction)
      → ((n : String) → count n (action_names graph.actions) ≤ 1)
      → IsSkipping (create env graph [] previous)
  create-IsSkipping previous distinct = record {
    dead = λ r m. elim (subst (Elem r) (no_results previous) m) [ ];
    ready = λ going a place.
        inl (subst (Elem a) (sym (pending-create env graph distinct previous)) place);
  }

count-result :
    (r : ActionResult) (results : List ActionResult)
    → Elem r results
    → 1 ≤ count r.name (result_names results)
unfolding count
count-result r [] m = elim m [ ]
count-result r (q ∷ results) (here same) =
    let k : (q.name == r.name) ≡ true = (eq_iff q.name r.name).1 (ap (λ x. x.name) (sym same)) in
    ground arith
count-result r (q ∷ results) (there m) = ground (arith, count-result r results m)

counted-Has : (n : String) (names : List String) → 1 ≤ count n names → Has names n
unfolding count includes
counted-Has n [] h = absurd (omega (arith, h))
counted-Has n (x ∷ names) h = ground (arith, counted-Has n names)

-- In a run that is not resumed, of actions with different names: as long as the run is not cancelled,
-- an action of the graph that depends on one with the result SKIPPED is pending and has no result,
-- whatever has completed since the skip.
pub dependents_of_skipped_wait :
    (env : Encodings) (graph : ExecutionGraph) (previous : List ExecutedAction) (p s : Runner)
    (r : ActionResult) (a : ExecutionAction)
    → ((n : String) → count n (action_names graph.actions) ≤ 1)
    → Prepared env graph (create env graph [] previous) p
    → Steps env graph (execute_ready env graph p) s
    → s.cancelled ≡ false
    → Elem r s.results
    → r.status ≡ ActionStatus.skipped
    → Elem a graph.actions
    → Has a.dependencies r.name
    → Elem a s.pending × (count a.name (result_names s.results) ≡ 0)
dependents_of_skipped_wait env graph previous p s r a distinct prepared steps going m e place d =
    let fresh = create env graph [] previous in
    let standing =
      Prepared-IsStanding env graph fresh p prepared
        (create-IsStanding env graph [] previous distinct) in
    let skipping =
      Prepared-IsSkipping env graph fresh p prepared
        (create-IsSkipping env graph previous distinct) in
    let (h, k) = Steps-IsTracked env graph _ s steps (
      execute_ready-IsStanding env graph p standing,
      execute_ready-IsSkipping env graph p standing skipping,
    ) in
    let accounts = pending_or_one_result env graph previous p s distinct prepared steps in
    let in_graph =
      counted-Has r.name (all_action_names graph)
        (omega (arith, accounts r.name, count-result r s.results m)) in
    elim (k.ready going a place) [
      | inl pending ↦ (
        pending,
        omega (arith, accounts a.name, distinct a.name, count-Elem env graph a s.pending pending),
      )
      | inr within ↦
          let blocked =
            not-depends_within env graph (all_action_names graph) s.executed a r.name d in_graph
              (k.dead r m e).1 in
          absurd (false≢true (sym blocked ∙ within))
    ]
