-- ===== src/Run/Schedule/Order.antt =====
-- api/commands/run.ts: an action runs only after what it depends on.
use dataform.Prelude.{
  ◌≡◌, refl, sym, ap, ◌∙◌, subst, String, true, not, ◌||◌, eq_iff, List, [], ◌∷◌, ◌++◌, append-nil,
  append_assoc, filter, all, Elem, there, Elem-append, Elem-append_left, Elem-append_right,
  Elem-filter, includes, Has, add, includes-add, inl, inr, ◌⊎◌, count, ◌≤◌, arith,
}
use dataform.Proto.{ExecutionAction, ActionResult, ExecutionGraph}
use dataform.Run.State.{Encodings, Runner, ExecutedAction, create, all_action_names}
use dataform.Run.Schedule.{
  depends_within, cancel_pending, is_executable, start, start_all, skip_all, execute_ready, Outcome,
  settle, complete, Step, completes, stops, cancels, times_out, Steps, next, Prepared, unprepared,
  stopped_early, cancelled_early, timed_out_early,
}
use dataform.Run.Schedule.Settled.{settle-IsSettled}
use dataform.Run.Schedule.Accounts.{action_names}
use dataform.Run.Schedule.Keeping.{HasSuccess}
use dataform.Run.Schedule.Standing.{
  execute_ready-IsStanding, Steps-IsStanding, Prepared-IsStanding, create-IsStanding,
}
use dataform.Run.Schedule.Rounds.{execute_ready_cases}

all_within :
    (names done more : List String) (ds : List String)
    → ((x : String) → Has done x → Has more x)
    → all (λ d. not (includes names d) || includes done d) ds ≡ true
    → all (λ d. not (includes names d) || includes more d) ds ≡ true
all_within names done more [] grow h = refl
all_within names done more (d ∷ ds) grow h =
    ground (arith, grow d, all_within names done more ds grow)

-- What stands within the smaller set stands within the larger.
pub depends_within_mono :
    (names done more : List String) (a : ExecutionAction)
    → ((x : String) → Has done x → Has more x)
    → depends_within names done a ≡ true
    → depends_within names more a ≡ true
unfolding depends_within
depends_within_mono names done more a grow h = all_within names done more a.dependencies grow h

module _ (env : Encodings) (graph : ExecutionGraph) where
  start_all_fields :
      (actions : List ExecutionAction) (s : Runner)
      → ((start_all env graph s actions).running ≡ s.running ++ actions)
        × ((start_all env graph s actions).successful ≡ s.successful)
  unfolding start_all start
  start_all_fields [] s = (sym (append-nil s.running), refl)
  start_all_fields (a ∷ actions) s =
      let f = start_all_fields actions (start env graph s a) in
      (f.0 ∙ append_assoc s.running (a ∷ []) actions, f.1)

  skip_all_fields :
      (s : Runner)
      → ((skip_all graph s).running ≡ s.running) × ((skip_all graph s).successful ≡ s.successful)
  unfolding skip_all
  skip_all_fields s = (refl, refl)

  -- Every dependency of a running action that is in the graph has succeeded.
  abbrev pub IsOrdered : Runner → Type 0
  IsOrdered s =
      (a : ExecutionAction)
      → Elem a s.running
      → depends_within (all_action_names graph) s.successful a ≡ true

  cancel_pending-IsOrdered : (s : Runner) → IsOrdered s → IsOrdered (cancel_pending s)
  unfolding cancel_pending
  cancel_pending-IsOrdered s h = h

  executable-depends_within :
      (s : Runner) (a : ExecutionAction)
      → is_executable graph s a ≡ true
      → depends_within (all_action_names graph) s.successful a ≡ true
  unfolding is_executable
  executable-depends_within s a h = h

  start_all-IsOrdered :
      (s : Runner)
      → IsOrdered s
      → IsOrdered
          (start_all env graph (skip_all graph s) (filter (is_executable graph s) s.pending))
  start_all-IsOrdered s h a e =
      let started = filter (is_executable graph s) s.pending in
      let f = start_all_fields started (skip_all graph s) in
      let g = skip_all_fields s in
      let e' = subst (λ l. Elem a l) (f.0 ∙ ap (λ l. l ++ started) g.0) e in
      subst (λ l. depends_within (all_action_names graph) l a ≡ true) (sym (f.1 ∙ g.1))
        (elim (Elem-append s.running started e') [
          | inl old ↦ h a old
          | inr new ↦
              executable-depends_within s a (Elem-filter (is_executable graph s) s.pending new).1
        ])

  execute_ready-IsOrdered : (s : Runner) → IsOrdered s → IsOrdered (execute_ready env graph s)
  execute_ready-IsOrdered s h =
      execute_ready_cases env graph IsOrdered s (λ _. h) (λ _ _. cancel_pending-IsOrdered s h)
        (λ _ _. start_all-IsOrdered s h)

  grown :
      (l m : List String) (n : String) → (m ≡ l) ⊎ (m ≡ add l n) → (x : String) → Has l x → Has m x
  grown l m n (inl e) x h = subst (λ k. Has k x) (sym e) h
  grown l m n (inr e) x h = subst (λ k. Has k x) (sym e) (ground (arith, includes-add l n x))

  settle-IsOrdered :
      (s : Runner) (a : ExecutionAction) (o : Outcome)
      → IsOrdered s
      → IsOrdered (settle env graph s a o)
  settle-IsOrdered s a o h b e =
      let f = settle-IsSettled env graph s a o in
      depends_within_mono (all_action_names graph) s.successful _ b
        (grown s.successful _ a.name f.successful) (h b (subst (λ l. Elem b l) f.same_running e))

  Elem-drop :
      (before after : List ExecutionAction) (a b : ExecutionAction)
      → Elem b (before ++ after)
      → Elem b (before ++ a ∷ after)
  Elem-drop before after a b e = elim (Elem-append before after e) [
    | inl l ↦ Elem-append_left (a ∷ after) l
    | inr r ↦ Elem-append_right before (there r)
  ]

  complete-IsOrdered :
      (r : Runner) (a : ExecutionAction) (o : Outcome)
      → IsOrdered r
      → IsOrdered (complete env graph r a o)
  unfolding complete
  complete-IsOrdered r a o k =
      execute_ready-IsOrdered (settle env graph r a o) (settle-IsOrdered r a o k)

  Step-IsOrdered : (s t : Runner) → Step env graph s t → IsOrdered s → IsOrdered t
  Step-IsOrdered s t (completes before after a o e l e') h = subst IsOrdered (sym e') (
      complete-IsOrdered (record s { running = before ++ after }) a o
        λ b m. h b (subst (λ l. Elem b l) (sym e) (Elem-drop before after a b m)))
  Step-IsOrdered s t (stops e) h = subst IsOrdered (sym e) h
  Step-IsOrdered s t (cancels e) h = subst IsOrdered (sym e) h
  Step-IsOrdered s t (times_out e) h = subst IsOrdered (sym e) h

  Steps-IsOrdered : (s t : Runner) → Steps env graph s t → IsOrdered s → IsOrdered t
  Steps-IsOrdered s t Steps.here h = h
  Steps-IsOrdered s t (next {t = u} steps step) h =
      Step-IsOrdered u t step (Steps-IsOrdered s u steps h)

  Prepared-IsOrdered : (s t : Runner) → Prepared env graph s t → IsOrdered s → IsOrdered t
  Prepared-IsOrdered s t unprepared h = h
  Prepared-IsOrdered s t (stopped_early {t = u} p) h = Prepared-IsOrdered s u p h
  Prepared-IsOrdered s t (cancelled_early {t = u} p) h = Prepared-IsOrdered s u p h
  Prepared-IsOrdered s t (timed_out_early {t = u} p) h = Prepared-IsOrdered s u p h

  create-IsOrdered :
      (results : List ActionResult) (previous : List ExecutedAction)
      → IsOrdered (create env graph results previous)
  unfolding create
  create-IsOrdered results previous a e = elim e [ ]

all_within-Has :
    (names done ds : List String) (d : String)
    → all (λ x. not (includes names x) || includes done x) ds ≡ true
    → Has ds d
    → Has names d
    → Has done d
unfolding includes
all_within-Has names done [] d h m n = cc
all_within-Has names done (x ∷ ds) d h m n =
    ground (arith, eq_iff x d, all_within-Has names done ds d)

pub depends_within-Has :
    (names done : List String) (a : ExecutionAction) (d : String)
    → depends_within names done a ≡ true
    → Has a.dependencies d
    → Has names d
    → Has done d
unfolding depends_within
depends_within-Has names done a d h m n = all_within-Has names done a.dependencies d h m n

-- In a run of actions with different names, resumed or not, whether or not it is stopped, cancelled or
-- timed out before or after its first action: at every moment each dependency of a running action that
-- is in the graph is taken as executed successfully, and has a result that is successful, disabled or
-- skipped by the cache.
pub running_after_dependencies :
    (env : Encodings) (graph : ExecutionGraph) (results : List ActionResult)
    (previous : List ExecutedAction) (p s : Runner)
    → ((n : String) → count n (action_names graph.actions) ≤ 1)
    → Prepared env graph (create env graph results previous) p
    → Steps env graph (execute_ready env graph p) s
    → (a : ExecutionAction) (d : String) → Elem a s.running
    → Has a.dependencies d
    → Has (all_action_names graph) d
    → Has s.successful d × HasSuccess s.results d
running_after_dependencies env graph results previous p s distinct prepared steps a d e m n =
    let done =
      depends_within-Has (all_action_names graph) s.successful a d
        (Steps-IsOrdered env graph _ s steps
          (execute_ready-IsOrdered env graph p (
            Prepared-IsOrdered env graph _ p prepared
              (create-IsOrdered env graph results previous)))
          a e)
        m n in
    let standing = Steps-IsStanding env graph _ s steps (
      execute_ready-IsStanding env graph p (
        Prepared-IsStanding env graph _ p prepared
          (create-IsStanding env graph results previous distinct))) in
    (done, standing.succeeded d done)
