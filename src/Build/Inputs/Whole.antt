-- ===== src/Build/Inputs/Whole.antt =====
-- api/commands/build.ts: what `computeAllTransitiveInputs` returns.
use dataform.Prelude.{
  ℕ, zero, suc, ◌≡◌, refl, sym, subst, ◌⊎◌, inl, inr, ◌↔◌, String, Bool, true, false, ◌==◌,
  Bool-cases, Option-cases, List, [], ◌∷◌, some, Elem, here, there, ok, bind-eq-ok, ok_injective,
  ok_ne_out_of_fuel,
}
use dataform.Stringified.{Stringifier, StringifiedMap, StringifiedSet, get_entry, get, has, set}
use dataform.Stringified.Laws.{IsFaithful, has_entry-get_entry}
use dataform.Proto.{Target, CompiledGraph}
use dataform.Build.Inputs.{
  Action, target_of, dependency_targets_of, Inputs, actions_by_target, add_inputs,
  compute_transitive_inputs_for_action, compute_inputs_of, compute_all_transitive_inputs,
  executed_actions,
}
use dataform.Build.Inputs.Lookup.{actions_by_target_consistent}
use dataform.Build.Inputs.Sets.{Holds, Holds-map, Holds-none}
use dataform.Build.Inputs.Relation.{IsInput, Among, Among-IsInput}
use dataform.Build.Inputs.Laws.{
  IsIndexed, IsRight, Extends, Computed, Computes, set-IsRight, set-Extends, has-set,
  add_inputs-Computed,
}

module _ (key : Stringifier Target) (by_target : StringifiedMap Action) (faithful : IsFaithful key)
    (consistent : (t : Target) (b : Action) → get key t by_target ≡ some b → target_of b ≡ t) where
  compute-Computes :
      (fuel : ℕ) → Computes key by_target (compute_transitive_inputs_for_action key by_target fuel)
  unfolding compute_transitive_inputs_for_action
  compute-Computes zero a memo r indexed right e = absurd (ok_ne_out_of_fuel (sym e))
  compute-Computes (suc fuel) a memo r indexed right e =
      elim (Option-cases (get key (target_of a) memo)) [
        | inr (known, found) ↦
            subst (Computed key by_target (IsInput key by_target a) memo)
              (ok_injective (rw (found, compute_transitive_inputs_for_action) at e))
              (record {
                holds = right (target_of a) known a found indexed;
                right = right;
                extends = λ t k. k;
              })
        | inl missing ↦
            let (found, e1, e2) =
              bind-eq-ok
                (add_inputs key by_target (compute_transitive_inputs_for_action key by_target fuel)
                  (dependency_targets_of a) (record { members = [] }) memo)
                _ (rw (missing, compute_transitive_inputs_for_action) at e) in
            let c =
              add_inputs-Computed key by_target faithful consistent
                (compute_transitive_inputs_for_action key by_target fuel) (compute-Computes fuel)
                (dependency_targets_of a) (record { members = [] }) (λ u. ⊥) memo found
                (Holds-none key (λ u. ⊥) (λ u p. p)) right e1 in
            let inputs = Holds-map key found.0 _ (IsInput key by_target a) (only_among a) c.holds in
            subst (Computed key by_target (IsInput key by_target a) memo) (ok_injective e2)
              (record {
                holds = inputs;
                right = set-IsRight key by_target a found.0 found.1 indexed inputs c.right;
                extends = λ t k.
                    set-Extends key by_target (target_of a) found.0 found.1 t (c.extends t k);
              })
      ]
    where
      only_among :
          (b : Action) (u : Target)
          → (⊥ ⊎ Among key by_target (dependency_targets_of b) u) ↔ IsInput key by_target b u
      only_among b u = (to, λ i. inr ((Among-IsInput key by_target b u).1 i))
        where
          to : ⊥ ⊎ Among key by_target (dependency_targets_of b) u → IsInput key by_target b u
          to (inl p) = absurd p
          to (inr m) = (Among-IsInput key by_target b u).0 m

  -- What the loop leaves.
  record Filled (actions : List Action) (memo out : Inputs) : Type 0 where
    right : IsRight key by_target out
    extends : Extends key by_target memo out
    known : (a : Action) → Elem a actions → has key (target_of a) out ≡ true

  compute_inputs_of-Filled :
      (fuel : ℕ) (actions : List Action) (memo out : Inputs)
      → ((a : Action) → Elem a actions → IsIndexed key by_target a)
      → IsRight key by_target memo
      → compute_inputs_of key by_target fuel actions memo ≡ ok out
      → Filled actions memo out
  unfolding compute_inputs_of
  compute_inputs_of-Filled fuel [] memo out indexed right e =
      subst (Filled [] memo) (ok_injective e)
        (record { right = right; extends = λ t k. k; known = λ a m. elim m [ ] })
  compute_inputs_of-Filled fuel (a ∷ actions) memo out indexed right e =
      elim (Bool-cases (has key (target_of a) memo)) [
        | inl present ↦
            let f =
              compute_inputs_of-Filled fuel actions memo out (λ b m. indexed b (there m)) right
                (rw (present, compute_inputs_of) at e) in
            record {
              right = f.right;
              extends = f.extends;
              known = with_first out (f.extends (target_of a) present) f.known;
            }
        | inr absent ↦
            let (found, e1, e2) =
              bind-eq-ok (compute_transitive_inputs_for_action key by_target fuel a memo) _
                (rw (absent, compute_inputs_of) at e) in
            let c = compute-Computes fuel a memo found (indexed a (here refl)) right e1 in
            let after = set key (target_of a) found.0 found.1 in
            let f =
              compute_inputs_of-Filled fuel actions after out (λ b m. indexed b (there m))
                (set-IsRight key by_target a found.0 found.1 (indexed a (here refl)) c.holds
                  c.right)
                e2 in
            record {
              right = f.right;
              extends = λ t k.
                  f.extends t
                    (set-Extends key by_target (target_of a) found.0 found.1 t (c.extends t k));
              known =
                  with_first out
                    (f.extends (target_of a) (has-set key by_target (target_of a) found.0 found.1))
                    f.known;
            }
      ]
    where
      with_first :
          (last : Inputs)
          → has key (target_of a) last ≡ true
          → ((b : Action) → Elem b actions → has key (target_of b) last ≡ true)
          → (b : Action) → Elem b (a ∷ actions)
          → has key (target_of b) last ≡ true
      with_first last first rest b (here same) =
          subst (λ c. has key (target_of c) last ≡ true) (sym same) first
      with_first last first rest b (there m) = rest b m

has-get :
    (key : Stringifier Target) (t : Target) (m : Inputs)
    → has key t m ≡ true
    → (s : StringifiedSet) × (get key t m ≡ some s)
unfolding get has
has-get key t m h = elim (Option-cases (get_entry (key.stringify t) m.entries)) [
  | inr found ↦ found
  | inl missing ↦ absurd ((has_entry-get_entry (key.stringify t) m.entries).0 h missing)
]

nothing_known :
    (key : Stringifier Target) (by_target : StringifiedMap Action)
    → IsRight key by_target (record { entries = [] })
unfolding get
nothing_known key by_target t s a e e' = cc

-- For a version that has transitive inputs, and actions that their targets lead to, the map that is
-- returned gives every table, operation and assertion of the graph the set of its transitive inputs:
-- its dependencies, and the inputs of those dependencies that are not tables or declarations.
pub compute_all_transitive_inputs-eq-ok :
    (key : Stringifier Target) (faithful : IsFaithful key) (valid : String → Bool) (fuel : ℕ)
    (g : CompiledGraph) (out : Inputs)
    → (g.dataform_core_version == "") ≡ false
    → valid g.dataform_core_version ≡ true
    → ((a : Action) → Elem a (executed_actions g) → IsIndexed key (actions_by_target key g) a)
    → compute_all_transitive_inputs key valid fuel g ≡ ok out
    → (a : Action) → Elem a (executed_actions g)
    → (s : StringifiedSet) × (get key (target_of a) out ≡ some s)
      × Holds key s (IsInput key (actions_by_target key g) a)
unfolding compute_all_transitive_inputs
compute_all_transitive_inputs-eq-ok key faithful valid fuel g out versioned new indexed e a m =
    let by_target = actions_by_target key g in
    let f =
      compute_inputs_of-Filled key by_target faithful (actions_by_target_consistent key g faithful)
        fuel (executed_actions g) (record { entries = [] }) out indexed
        (nothing_known key by_target) (rw (versioned, new) at e) in
    let (s, found) = has-get key (target_of a) out (f.known a m) in
    (s, found, f.right (target_of a) s a found (indexed a m))
