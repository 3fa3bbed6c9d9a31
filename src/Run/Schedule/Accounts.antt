-- ===== src/Run/Schedule/Accounts.antt =====
-- api/commands/run.ts: every action is pending or has one result.
use dataform.Prelude.{
  ◌+◌, ◌≤◌, ◌≡◌, refl, sym, ap, ◌∙◌, subst, String, true, false, not, ◌&&◌, eq_self, List, [], ◌∷◌,
  ◌++◌, map, none, nat_eq, length, filter, filter_all, add_all, includes, inl, inr, Bool-cases,
  count, count-append, count-parts, arith,
}
use dataform.Proto.{ExecutionAction, ActionResult, ExecutionGraph}
use dataform.Run.State.{Encodings, Runner, ExecutedAction, create}
use dataform.Run.Cache.{should_cache_skip}
use dataform.Run.Schedule.{
  skipped_result, find_result, cancel_pending, is_executable, is_skippable, is_still_pending,
  started_result, start_results, start, start_all, skip_all, execute_ready, Outcome, settle,
  complete, Step, completes, stops, cancels, times_out, Steps, here, next, Prepared, unprepared,
  stopped_early, cancelled_early, timed_out_early,
}
use dataform.Run.Schedule.Settled.{result_names, settle-IsSettled}
use dataform.Run.Schedule.Rounds.{execute_ready_cases}

abbrev pub action_names : List ExecutionAction → List String
action_names actions = map (λ a. a.name) actions

find_result-none :
    (name : String) (results : List ActionResult)
    → count name (result_names results) ≡ 0
    → find_result name results ≡ none
unfolding count find_result
find_result-none name [] h = refl
find_result-none name (r ∷ results) h = ground (arith, find_result-none name results)

result_names-snoc :
    (results : List ActionResult) (r : ActionResult)
    → result_names (results ++ r ∷ []) ≡ result_names results ++ r.name ∷ []
result_names-snoc [] r = refl
result_names-snoc (q ∷ results) r = ap (λ l. q.name ∷ l) (result_names-snoc results r)

result_names-skipped :
    (results : List ActionResult) (actions : List ExecutionAction)
    → result_names (results ++ map skipped_result actions)
      ≡ result_names results ++ action_names actions
result_names-skipped [] [] = refl
result_names-skipped [] (a ∷ actions) = ap (λ l. a.name ∷ l) (result_names-skipped [] actions)
result_names-skipped (q ∷ results) actions =
    ap (λ l. q.name ∷ l) (result_names-skipped results actions)

module _ (env : Encodings) (graph : ExecutionGraph) where
  -- An action with no result yet gets one.
  result_names-start :
      (s : Runner) (a : ExecutionAction)
      → count a.name (result_names s.results) ≡ 0
      → result_names (start env graph s a).results ≡ result_names s.results ++ a.name ∷ []
  unfolding start start_results started_result
  result_names-start s a new =
      let absent = find_result-none a.name s.results new in
      elim (Bool-cases (nat_eq (length a.tasks) 0)) [
        | inl e ↦ rw (e, start_results) (result_names-snoc s.results _)
        | inr e ↦ elim (Bool-cases (should_cache_skip env graph s a)) [
          | inl skip ↦ rw (e, skip) (result_names-snoc s.results _)
          | inr run ↦ rw (e, run, absent) (result_names-snoc s.results _)
        ]
      ]

  count-start :
      (s : Runner) (a : ExecutionAction) (n : String)
      → count a.name (result_names s.results) ≡ 0
      → count n (result_names (start env graph s a).results)
        ≡ count n (result_names s.results) + count n (a.name ∷ [])
  count-start s a n new =
      ap (count n) (result_names-start s a new)
      ∙ count-append n (result_names s.results) (a.name ∷ [])

  -- Starting actions that have no result, each once.
  count-start_all :
      (actions : List ExecutionAction) (s : Runner)
      → ((n : String) → count n (result_names s.results) + count n (action_names actions) ≤ 1)
      → (n : String)
      → count n (result_names (start_all env graph s actions).results)
        ≡ count n (result_names s.results) + count n (action_names actions)
  unfolding start_all count
  count-start_all [] s once n = omega arith
  count-start_all (a ∷ actions) s once n =
      let new : count a.name (result_names s.results) ≡ 0 =
        ground (arith, once a.name, eq_self a.name) in
      let rest =
        count-start_all actions (start env graph s a)
          (λ m. ground (arith, once m, count-start s a m new)) n in
      ground (arith, rest, count-start s a n new)

  -- An action is pending as often as it is in the graph, less the results that it has.
  abbrev pub IsAccounted : Runner → Type 0
  IsAccounted s =
      (n : String)
      → count n (result_names s.results) + count n (action_names s.pending)
        ≡ count n (action_names graph.actions)

  skippable-executable :
      (s : Runner) (a : ExecutionAction)
      → is_skippable graph s a ≡ true
      → is_executable graph s a ≡ false
  unfolding is_skippable
  skippable-executable s a h = ground arith

  still_pending_eq :
      (s : Runner) (a : ExecutionAction)
      → is_still_pending graph s a ≡ (not (is_executable graph s a) && not (is_skippable graph s a))
  unfolding is_still_pending
  still_pending_eq s a = refl

  -- Every pending action is one of the three.
  pub pending_parts :
      (s : Runner) (n : String)
      → count n (action_names s.pending)
        ≡ count n (action_names (filter (is_executable graph s) s.pending))
          + count n (action_names (filter (is_skippable graph s) s.pending))
          + count n (action_names (filter (is_still_pending graph s) s.pending))
  pending_parts s n =
      count-parts (λ a. a.name) (is_executable graph s) (is_skippable graph s)
        (is_still_pending graph s) (skippable-executable s) (still_pending_eq s) n s.pending

  module _ (distinct : (n : String) → count n (action_names graph.actions) ≤ 1) where
    count-skip_all :
        (s : Runner) (n : String)
        → count n (result_names (skip_all graph s).results)
          ≡ count n (result_names s.results)
            + count n (action_names (filter (is_skippable graph s) s.pending))
    unfolding skip_all
    count-skip_all s n =
        ap (count n) (result_names-skipped s.results (filter (is_skippable graph s) s.pending))
        ∙ count-append n (result_names s.results) _

    pending-start_all :
        (actions : List ExecutionAction) (s : Runner)
        → (start_all env graph s actions).pending ≡ s.pending
    unfolding start_all start
    pending-start_all [] s = refl
    pending-start_all (a ∷ actions) s = pending-start_all actions (start env graph s a)

    cancel_pending-IsAccounted : (s : Runner) → IsAccounted s → IsAccounted (cancel_pending s)
    unfolding cancel_pending count
    cancel_pending-IsAccounted s h n =
        let e : count n (result_names (s.results ++ map skipped_result s.pending))
            ≡ count n (result_names s.results) + count n (action_names s.pending) =
          ap (count n) (result_names-skipped s.results s.pending)
          ∙ count-append n (result_names s.results) (action_names s.pending) in
        omega (arith, h n, e)

    -- What is left pending after the skips.
    pending-skip_all :
        (s : Runner) → (skip_all graph s).pending ≡ filter (is_still_pending graph s) s.pending
    unfolding skip_all
    pending-skip_all s = refl

    start_all-IsAccounted :
        (s : Runner)
        → IsAccounted s
        → IsAccounted
            (start_all env graph (skip_all graph s) (filter (is_executable graph s) s.pending))
    start_all-IsAccounted s h n =
        let started = filter (is_executable graph s) s.pending in
        let once : (m : String)
            → count m (result_names (skip_all graph s).results) + count m (action_names started)
              ≤ 1 =
          λ m. omega (arith, h m, distinct m, pending_parts s m, count-skip_all s m) in
        let all_started = count-start_all started (skip_all graph s) once n in
        let left : count n (action_names (start_all env graph (skip_all graph s) started).pending)
            ≡ count n (action_names (filter (is_still_pending graph s) s.pending)) =
          ap (λ l. count n (action_names l))
            (pending-start_all started (skip_all graph s) ∙ pending-skip_all s) in
        omega (arith, h n, pending_parts s n, count-skip_all s n, all_started, left)

    execute_ready-IsAccounted :
        (s : Runner) → IsAccounted s → IsAccounted (execute_ready env graph s)
    execute_ready-IsAccounted s h =
        execute_ready_cases env graph IsAccounted s (λ _. h) (λ _ _. cancel_pending-IsAccounted s h)
          (λ _ _. start_all-IsAccounted s h)

    complete-IsAccounted :
        (s : Runner) (a : ExecutionAction) (o : Outcome)
        → IsAccounted s
        → IsAccounted (complete env graph s a o)
    unfolding complete
    complete-IsAccounted s a o h =
        let f = settle-IsSettled env graph s a o in
        execute_ready-IsAccounted (settle env graph s a o)
          λ n. rw (f.same_names, f.same_pending) (h n)

    Step-IsAccounted : (s t : Runner) → Step env graph s t → IsAccounted s → IsAccounted t
    Step-IsAccounted s t (completes before after a o e l e') h =
        subst IsAccounted (sym e')
          (complete-IsAccounted (record s { running = before ++ after }) a o h)
    Step-IsAccounted s t (stops e) h = subst IsAccounted (sym e) h
    Step-IsAccounted s t (cancels e) h = subst IsAccounted (sym e) h
    Step-IsAccounted s t (times_out e) h = subst IsAccounted (sym e) h

    Steps-IsAccounted : (s t : Runner) → Steps env graph s t → IsAccounted s → IsAccounted t
    Steps-IsAccounted s t here h = h
    Steps-IsAccounted s t (next {t = u} steps step) h =
        Step-IsAccounted u t step (Steps-IsAccounted s u steps h)

    Prepared-IsAccounted : (s t : Runner) → Prepared env graph s t → IsAccounted s → IsAccounted t
    Prepared-IsAccounted s t unprepared h = h
    Prepared-IsAccounted s t (stopped_early {t = u} p) h = Prepared-IsAccounted s u p h
    Prepared-IsAccounted s t (cancelled_early {t = u} p) h = Prepared-IsAccounted s u p h
    Prepared-IsAccounted s t (timed_out_early {t = u} p) h = Prepared-IsAccounted s u p h

    -- In a run that is not resumed every action is pending at first.
    pub pending-create :
        (previous : List ExecutedAction) → (create env graph [] previous).pending ≡ graph.actions
    unfolding create add_all includes
    pending-create previous = filter_all _ graph.actions (λ a. refl)

    create-IsAccounted :
        (previous : List ExecutedAction) → IsAccounted (create env graph [] previous)
    unfolding create count
    create-IsAccounted previous n =
        omega (arith, ap (λ l. count n (action_names l)) (pending-create previous))

-- In a run that is not resumed, of actions with different names, whether or not it is stopped, cancelled
-- or timed out before or after its first action, every action is at every moment either pending or has
-- exactly one result, and nothing else has a result.
pub pending_or_one_result :
    (env : Encodings) (graph : ExecutionGraph) (previous : List ExecutedAction) (p s : Runner)
    → ((n : String) → count n (action_names graph.actions) ≤ 1)
    → Prepared env graph (create env graph [] previous) p
    → Steps env graph (execute_ready env graph p) s
    → (n : String)
    → count n (result_names s.results) + count n (action_names s.pending)
      ≡ count n (action_names graph.actions)
pending_or_one_result env graph previous p s distinct prepared steps =
    Steps-IsAccounted env graph distinct _ s steps (
      execute_ready-IsAccounted env graph distinct p (
        Prepared-IsAccounted env graph distinct _ p prepared
          (create-IsAccounted env graph distinct previous)))
