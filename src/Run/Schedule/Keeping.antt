-- ===== src/Run/Schedule/Keeping.antt =====
-- api/commands/run.ts: the results of a name, which stay as they are while other names change.
use mathlib.Core.Bool.{false≢true}
use dataform.Prelude.{
  ◌≡◌, refl, sym, ap, ◌∙◌, String, true, false, not, eq_iff, eq-cases, List, [], ◌∷◌, some, nat_eq,
  length, filter, Elem, here, there, Elem-append_left, Elem-filter, some_cancel, Option-cases, ◌==◌,
  inl, inr, Bool-cases, count, arith,
}
use dataform.Proto.{ExecutionAction, ActionResult, ActionStatus, ExecutionGraph}
use dataform.Run.State.{Encodings, Runner, is_running, is_successful}
use dataform.Run.Cache.{should_cache_skip}
use dataform.Run.Schedule.{
  find_result, update_result, cancel_pending, start_results, start, start_all, skip_all, Outcome,
  finish_action, record_execution, status_of, settle,
}
use dataform.Run.Schedule.Accounts.{action_names}

-- A result of the name that ended well.
abbrev pub HasSuccess : List ActionResult → String → Type 0
HasSuccess results n =
    (r : ActionResult) × Elem r results × (r.name ≡ n) × (is_successful r.status ≡ true)

-- The results of a name that are there stay as they are.
abbrev pub Keeps : String → List ActionResult → List ActionResult → Type 0
Keeps n before after = (r : ActionResult) → r.name ≡ n → Elem r before → Elem r after

pub Elem-update_result :
    (name n : String) (f : ActionResult → ActionResult) (results : List ActionResult)
    → (name == n) ≡ false
    → Keeps n results (update_result name f results)
unfolding update_result
Elem-update_result name n f [] other r e m = m
Elem-update_result name n f (q ∷ results) other r e (here same) = elim (eq-cases q.name name) [
  | inl (_, p) ↦
      absurd (false≢true (sym other ∙ (eq_iff name n).1 (sym p ∙ ap (λ x. x.name) (sym same) ∙ e)))
  | inr (b, _) ↦ rw b (here same)
]
Elem-update_result name n f (q ∷ results) other r e (there m) = elim (Bool-cases (q.name == name)) [
  | inl b ↦ rw b (there m)
  | inr b ↦ rw b (there (Elem-update_result name n f results other r e m))
]

pub find_result-Elem :
    (name : String) (results : List ActionResult) (r : ActionResult)
    → find_result name results ≡ some r
    → Elem r results × (r.name ≡ name)
unfolding find_result
find_result-Elem name [] r h = cc
find_result-Elem name (q ∷ results) r h = elim (eq-cases q.name name) [
  | inl (b, p) ↦
      let same : q ≡ r = some_cancel (rw b at h) in
      (here (sym same), ap (λ x. x.name) (sym same) ∙ p)
  | inr (b, _) ↦ let (m, e) = find_result-Elem name results r (rw b at h) in (there m, e)
]

module _ (env : Encodings) (graph : ExecutionGraph) where
  pub status_of-HasSuccess :
      (s : Runner) (name : String)
      → is_successful (status_of env graph s name) ≡ true
      → HasSuccess s.results name
  unfolding status_of
  status_of-HasSuccess s name h =
      elim (Option-cases (find_result name (filter (λ r. not (is_running r.status)) s.results))) [
        | inl e ↦
            let none_ended : status_of env graph s name ≡ ActionStatus.running =
              rw (status_of, e) refl in
            absurd (false≢true (ap is_successful (sym none_ended) ∙ h))
        | inr (r, e) ↦
            let ended : status_of env graph s name ≡ r.status = rw (status_of, e) refl in
            let (m, named) =
              find_result-Elem name (filter (λ r. not (is_running r.status)) s.results) r e in
            (
              r,
              (Elem-filter (λ r. not (is_running r.status)) s.results m).0,
              named,
              ap is_successful (sym ended) ∙ h,
            )
      ]

  pub start-Keeps :
      (s : Runner) (a : ExecutionAction) (n : String)
      → (a.name == n) ≡ false
      → Keeps n s.results (start env graph s a).results
  unfolding start start_results
  start-Keeps s a n other r e m = elim (Bool-cases (nat_eq (length a.tasks) 0)) [
    | inl b ↦ rw (b, start_results) (Elem-append_left _ m)
    | inr b ↦ elim (Bool-cases (should_cache_skip env graph s a)) [
      | inl c ↦ rw (b, c) (Elem-append_left _ m)
      | inr c ↦ elim (Option-cases (find_result a.name s.results)) [
        | inl absent ↦ rw (b, c, absent) (Elem-append_left _ m)
        | inr (q, found) ↦ rw (b, c, found) (Elem-update_result a.name n _ s.results other r e m)
      ]
    ]
  ]

  pub start_all-Keeps :
      (actions : List ExecutionAction) (s : Runner) (n : String)
      → count n (action_names actions) ≡ 0
      → Keeps n s.results (start_all env graph s actions).results
  unfolding start_all count
  start_all-Keeps [] s n h r e m = m
  start_all-Keeps (a ∷ actions) s n h r e m =
      start_all-Keeps actions (start env graph s a) n (ground arith) r e
        (start-Keeps s a n (ground arith) r e m)

  pub skip_all-Keeps : (s : Runner) (n : String) → Keeps n s.results (skip_all graph s).results
  unfolding skip_all
  skip_all-Keeps s n r e m = Elem-append_left _ m

  pub cancel_pending-Keeps :
      (s : Runner) (n : String) → Keeps n s.results (cancel_pending s).results
  unfolding cancel_pending
  cancel_pending-Keeps s n r e m = Elem-append_left _ m

  pub finish_action-Keeps :
      (s : Runner) (a : ExecutionAction) (o : Outcome) (n : String)
      → (a.name == n) ≡ false
      → Keeps n s.results (finish_action env graph s a o).results
  unfolding finish_action
  finish_action-Keeps s a o n other r e m = elim (Bool-cases s.stopped) [
    | inl b ↦ rw (b, finish_action) (Elem-update_result a.name n _ s.results other r e m)
    | inr b ↦ rw (b, finish_action) (Elem-update_result a.name n _ s.results other r e m)
  ]

  pub settle-Keeps :
      (s : Runner) (a : ExecutionAction) (o : Outcome) (n : String)
      → (a.name == n) ≡ false
      → Keeps n s.results (settle env graph s a o).results
  unfolding settle record_execution
  settle-Keeps s a o n other r e m = elim (Bool-cases (is_running (status_of env graph s a.name))) [
    | inl b ↦ rw b (finish_action-Keeps s a o n other r e m)
    | inr b ↦ rw b m
  ]
