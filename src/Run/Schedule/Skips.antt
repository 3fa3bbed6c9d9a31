-- ===== src/Run/Schedule/Skips.antt =====
-- api/commands/run.ts: which steps of the runner skip actions.
use dataform.Prelude.{
  ◌≡◌, sym, ap, ◌∙◌, String, true, ◌==◌, List, [], ◌∷◌, ◌++◌, nat_eq, length, Elem, here, there,
  Elem-append, inl, inr, Bool-cases, Option-cases,
}
use dataform.Proto.{ExecutionAction, ActionResult, ActionStatus, ExecutionGraph}
use dataform.Run.State.{Encodings, Runner, is_running}
use dataform.Run.Cache.{should_cache_skip}
use dataform.Run.Schedule.{
  find_result, update_result, started_result, start_results, start, start_all, Outcome, is_left,
  finished_result, finish_action, record_execution, status_of, settle,
}

-- A result of the name says that it was skipped.
abbrev pub IsSkipped : ActionResult → Type 0
IsSkipped r = r.status ≡ ActionStatus.skipped

-- Every skipped result of the second list stands in the first.
abbrev pub NoNewSkips : List ActionResult → List ActionResult → Type 0
NoNewSkips before after = (r : ActionResult) → IsSkipped r → Elem r after → Elem r before

snoc-NoNewSkips :
    (results : List ActionResult) (q : ActionResult)
    → (IsSkipped q → ⊥)
    → NoNewSkips results (results ++ q ∷ [])
snoc-NoNewSkips results q other r e m = elim (Elem-append results (q ∷ []) m) [
  | inl old ↦ old
  | inr (here same) ↦ absurd (other (ap (λ x. x.status) (sym same) ∙ e))
  | inr (there k) ↦ elim k [ ]
]

update_result-NoNewSkips :
    (name : String) (f : ActionResult → ActionResult) (results : List ActionResult)
    → ((q : ActionResult) → IsSkipped (f q) → ⊥)
    → NoNewSkips results (update_result name f results)
unfolding update_result
update_result-NoNewSkips name f [] other r e m = m
update_result-NoNewSkips name f (q ∷ results) other r e m = elim (Bool-cases (q.name == name)) [
  | inl b ↦ elim (rw b at m) [
    | here same ↦ absurd (other q (ap (λ x. x.status) (sym same) ∙ e))
    | there k ↦ there k
  ]
  | inr b ↦ elim (rw b at m) [
    | here same ↦ here same
    | there k ↦ there (update_result-NoNewSkips name f results other r e k)
  ]
]

module _ (env : Encodings) (graph : ExecutionGraph) where
  start-NoNewSkips :
      (s : Runner) (a : ExecutionAction) → NoNewSkips s.results (start env graph s a).results
  unfolding start start_results started_result
  start-NoNewSkips s a r e m = elim (Bool-cases (nat_eq (length a.tasks) 0)) [
    | inl b ↦ snoc-NoNewSkips s.results _ (λ h. cc) r e (rw (b, start_results) at m)
    | inr b ↦ elim (Bool-cases (should_cache_skip env graph s a)) [
      | inl c ↦ snoc-NoNewSkips s.results _ (λ h. cc) r e (rw (b, c) at m)
      | inr c ↦ elim (Option-cases (find_result a.name s.results)) [
        | inl absent ↦ snoc-NoNewSkips s.results _ (λ h. cc) r e (rw (b, c, absent) at m)
        | inr (q, found) ↦
            update_result-NoNewSkips a.name _ s.results (λ p h. cc) r e (rw (b, c, found) at m)
      ]
    ]
  ]

  pub start_all-NoNewSkips :
      (actions : List ExecutionAction) (s : Runner)
      → NoNewSkips s.results (start_all env graph s actions).results
  unfolding start_all
  start_all-NoNewSkips [] s r e m = m
  start_all-NoNewSkips (a ∷ actions) s r e m =
      start-NoNewSkips s a r e (start_all-NoNewSkips actions (start env graph s a) r e m)

  unskipped : (status : ActionStatus) → is_left status ≡ true → status ≡ ActionStatus.skipped → ⊥
  unskipped status l h = let k = ap is_left (sym h) ∙ l in cc

  finished-unskipped :
      (o : Outcome) (q : ActionResult)
      → is_left o.status ≡ true
      → IsSkipped (finished_result o q)
      → ⊥
  unfolding finished_result
  finished-unskipped o q l h = elim (Bool-cases (is_running o.status)) [
    | inl b ↦ let k = rw b at h in cc
    | inr b ↦ unskipped o.status l (rw b at h)
  ]

  pub settle-NoNewSkips :
      (s : Runner) (a : ExecutionAction) (o : Outcome)
      → is_left o.status ≡ true
      → NoNewSkips s.results (settle env graph s a o).results
  unfolding settle record_execution finish_action
  settle-NoNewSkips s a o l r e m = elim (Bool-cases (is_running (status_of env graph s a.name))) [
    | inr b ↦ rw b at m
    | inl b ↦ elim (Bool-cases s.stopped) [
      | inl c ↦
          update_result-NoNewSkips a.name _ s.results (λ q h. unskipped o.status l h) r e
            (rw (b, c, finish_action) at m)
      | inr c ↦
          update_result-NoNewSkips a.name _ s.results (λ q h. finished-unskipped o q l h) r e
            (rw (b, c, finish_action) at m)
    ]
  ]
