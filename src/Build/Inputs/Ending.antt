-- ===== src/Build/Inputs/Ending.antt =====
-- api/commands/build.ts: `computeAllTransitiveInputs` returns when dependencies exist and form no cycle.
use dataform.Prelude.{
  ℕ, zero, suc, ◌<◌, ◌≡◌, refl, sym, subst, inl, inr, String, Bool, false, ◌==◌, Bool-cases,
  Option-cases, List, [], ◌∷◌, some, Elem, here, there, Result, ok, ◌>>=◌, arith,
}
use dataform.Stringified.{
  Stringifier, StringifiedMap, StringifiedSet, get, has, set, add_value, values_of,
}
use dataform.Stringified.Laws.{IsFaithful}
use dataform.Proto.{Target, CompiledGraph}
use dataform.Build.Inputs.{
  Action, target_of, dependency_targets_of, is_source, Inputs, actions_by_target, add_values,
  add_inputs, compute_transitive_inputs_for_action, compute_inputs_of,
  compute_all_transitive_inputs, executed_actions, combine_all_actions,
}
use dataform.Build.Inputs.Laws.{IsIndexed}
use dataform.Build.Inputs.Lookup.{actions_by_target_consistent, actions_by_target-Elem}

-- The code returned.
abbrev pub Returns {ℓ} : {A : Type ℓ} → Result A → Type ℓ
Returns {A = A} r = (a : A) × (r ≡ ok a)

Returns-bind {ℓ κ} :
    {A : Type ℓ} {B : Type κ} (first : Result A) (next : A → Result B)
    → Returns first
    → ((a : A) → Returns (next a))
    → Returns (first >>= next)
Returns-bind first next (a, e) h = rw e (h a)

module _ (key : Stringifier Target) (by_target : StringifiedMap Action) where
  -- Each of the targets leads to an action, and what is computed of this one returns.
  abbrev Answers : (Action → Inputs → Result (StringifiedSet × Inputs)) → List Target → Type 0
  Answers recurse targets =
      (t : Target)
      → Elem t targets
      → (b : Action) × (get key t by_target ≡ some b)
        × (is_source b ≡ false → (memo : Inputs) → Returns (recurse b memo))

  add_inputs-Returns :
      (recurse : Action → Inputs → Result (StringifiedSet × Inputs)) (targets : List Target)
      (s : StringifiedSet) (memo : Inputs)
      → Answers recurse targets
      → Returns (add_inputs key by_target recurse targets s memo)
  unfolding add_inputs
  add_inputs-Returns recurse [] s memo h = ((s, memo), refl)
  add_inputs-Returns recurse (t ∷ targets) s memo h =
      let (b, found, answers) = h t (here refl) in
      let rest = λ (v : Target) (m : Elem v targets). h v (there m) in
      elim (Bool-cases (is_source b)) [
        | inl source ↦
            rw (found, source, add_inputs)
              (add_inputs-Returns recurse targets (add_value key t s) memo rest)
        | inr follow ↦
            rw (found, follow, add_inputs)
              (Returns-bind (recurse b memo) _ (answers follow memo) λ r.
                add_inputs-Returns recurse targets
                  (add_values key (values_of key r.0) (add_value key t s)) r.1 rest)
      ]

  module _ (consistent : (t : Target) (b : Action) → get key t by_target ≡ some b → target_of b ≡ t)
      (rank : Action → ℕ)
      (present : (a : Action) (t : Target)
        → IsIndexed key by_target a
        → Elem t (dependency_targets_of a)
        → (b : Action) × (get key t by_target ≡ some b)
          × (is_source b ≡ false → rank b < rank a)) where
    compute-Returns :
        (fuel : ℕ) (a : Action) (memo : Inputs)
        → IsIndexed key by_target a
        → rank a < fuel
        → Returns (compute_transitive_inputs_for_action key by_target fuel a memo)
    unfolding compute_transitive_inputs_for_action
    compute-Returns zero a memo indexed h = absurd (omega arith)
    compute-Returns (suc fuel) a memo indexed h = elim (Option-cases (get key (target_of a) memo)) [
      | inr (known, found) ↦ rw (found, compute_transitive_inputs_for_action) ((known, memo), refl)
      | inl missing ↦
          rw (missing, compute_transitive_inputs_for_action)
            (Returns-bind
              (add_inputs key by_target (compute_transitive_inputs_for_action key by_target fuel)
                (dependency_targets_of a) (record { members = [] }) memo)
              _
              (add_inputs-Returns (compute_transitive_inputs_for_action key by_target fuel)
                (dependency_targets_of a) (record { members = [] }) memo
                λ t m.
                  let (b, found, below) = present a t indexed m in
                  (
                    b,
                    found,
                    λ follow later.
                        compute-Returns fuel b later
                          (subst (λ v. get key v by_target ≡ some b) (sym (consistent t b found))
                            found)
                          (omega (arith, below follow)),
                  ))
              λ r. (_, refl))
    ]

    compute_inputs_of-Returns :
        (fuel : ℕ) (actions : List Action) (memo : Inputs)
        → ((a : Action) → Elem a actions → IsIndexed key by_target a)
        → ((a : Action) → Elem a actions → rank a < fuel)
        → Returns (compute_inputs_of key by_target fuel actions memo)
    unfolding compute_inputs_of
    compute_inputs_of-Returns fuel [] memo indexed enough = (memo, refl)
    compute_inputs_of-Returns fuel (a ∷ actions) memo indexed enough =
        let go = λ (m : Inputs).
          compute_inputs_of-Returns fuel actions m (λ b e. indexed b (there e))
            (λ b e. enough b (there e)) in
        elim (Bool-cases (has key (target_of a) memo)) [
          | inl known ↦ rw (known, compute_inputs_of) (go memo)
          | inr new ↦
              rw (new, compute_inputs_of)
                (Returns-bind (compute_transitive_inputs_for_action key by_target fuel a memo) _
                  (compute-Returns fuel a memo (indexed a (here refl)) (enough a (here refl)))
                  λ r. go (set key (target_of a) r.0 r.1))
        ]

-- With a stringifier whose parser gives back what was stringified: if every table, operation and
-- assertion is found under its own target, every dependency leads to an action, and the actions have
-- ranks that fall along dependencies that are not tables or declarations (so that these form no cycle),
-- then fuel above the ranks is enough for `computeAllTransitiveInputs` to return.
pub compute_all_transitive_inputs-Returns :
    (key : Stringifier Target) (faithful : IsFaithful key) (valid : String → Bool) (fuel : ℕ)
    (g : CompiledGraph) (rank : Action → ℕ)
    → ((a : Action) → Elem a (executed_actions g) → IsIndexed key (actions_by_target key g) a)
    → ((a : Action) → Elem a (executed_actions g) → rank a < fuel)
    → ((a : Action) (t : Target)
        → Elem a (combine_all_actions g)
        → Elem t (dependency_targets_of a)
        → (b : Action) × (get key t (actions_by_target key g) ≡ some b)
          × (is_source b ≡ false → rank b < rank a))
    → Returns (compute_all_transitive_inputs key valid fuel g)
unfolding compute_all_transitive_inputs
compute_all_transitive_inputs-Returns key faithful valid fuel g rank indexed enough present =
    elim (Bool-cases (g.dataform_core_version == "")) [
      | inl unset ↦ rw unset (record { entries = [] }, refl)
      | inr set ↦ elim (Bool-cases (valid g.dataform_core_version)) [
        | inr old ↦ rw (set, old) (record { entries = [] }, refl)
        | inl new ↦
            rw (set, new)
              (compute_inputs_of-Returns key (actions_by_target key g)
                (actions_by_target_consistent key g faithful) rank
                (λ a t found. present a t (actions_by_target-Elem key g (target_of a) a found)) fuel
                (executed_actions g) (record { entries = [] }) indexed enough)
      ]
    ]
