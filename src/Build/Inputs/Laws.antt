-- ===== src/Build/Inputs/Laws.antt =====
-- api/commands/build.ts: what the recursive calls for the dependencies of an action leave.
use dataform.Prelude.{
  ◌≡◌, refl, sym, ap, ◌∙◌, subst, ◌⊎◌, inl, inr, true, eq_self, eq-cases, Bool-cases, Option-cases,
  List, [], ◌∷◌, some, some_cancel, Elem, Result, ok, bind-eq-ok, ok_injective, arith,
}
use dataform.Stringified.{
  Stringifier, StringifiedMap, StringifiedSet, get_entry, get, has, set, add_value, values_of,
}
use dataform.Stringified.Laws.{IsFaithful, get_entry-set_entry, has_entry-set_entry}
use dataform.Proto.{Target}
use dataform.Build.Inputs.{Action, target_of, is_source, Inputs, add_values, add_inputs}
use dataform.Build.Inputs.Sets.{Holds, Holds-map, add_value-Holds, add_values-Holds, values_of_iff}
use dataform.Build.Inputs.Relation.{IsInput, Among, listed, behind, Among-source, Among-follow}

module _ (key : Stringifier Target) (by_target : StringifiedMap Action) where
  -- The target leads to the action.
  abbrev pub IsIndexed : Action → Type 0
  IsIndexed a = get key (target_of a) by_target ≡ some a

  -- What is known of an action are its inputs.
  abbrev pub IsRight : Inputs → Type 0
  IsRight memo =
      (t : Target) (s : StringifiedSet) (a : Action)
      → get key t memo ≡ some s
      → get key t by_target ≡ some a
      → Holds key s (IsInput key by_target a)

  abbrev pub Extends : Inputs → Inputs → Type 0
  Extends memo after = (t : Target) → has key t memo ≡ true → has key t after ≡ true

  pub set-IsRight :
      (a : Action) (s : StringifiedSet) (memo : Inputs)
      → IsIndexed a
      → Holds key s (IsInput key by_target a)
      → IsRight memo
      → IsRight (set key (target_of a) s memo)
  unfolding get set
  set-IsRight a s memo indexed h right t found b e e' =
      elim (eq-cases (key.stringify (target_of a)) (key.stringify t)) [
        | inl (eq, same) ↦
            let e2 =
              sym
                (get_entry-set_entry (key.stringify (target_of a)) (key.stringify t) s memo.entries)
              ∙ e in
            let this = some_cancel ((rw eq at e2)) in
            let action =
              some_cancel (sym indexed ∙ ap (λ k. get_entry k by_target.entries) same ∙ e') in
            subst (λ c. Holds key found (IsInput key by_target c)) action
              (subst (λ f. Holds key f (IsInput key by_target a)) this h)
        | inr (ne, _) ↦
            let e2 =
              sym
                (get_entry-set_entry (key.stringify (target_of a)) (key.stringify t) s memo.entries)
              ∙ e in
            right t found b (rw ne at e2) e'
      ]

  pub set-Extends :
      (t : Target) (s : StringifiedSet) (memo : Inputs) → Extends memo (set key t s memo)
  unfolding has set
  set-Extends t s memo u h =
      rw (has_entry-set_entry (key.stringify t) (key.stringify u) s memo.entries) (ground arith)

  pub has-set :
      (t : Target) (s : StringifiedSet) (memo : Inputs) → has key t (set key t s memo) ≡ true
  unfolding has set
  has-set t s memo =
      rw
        (
          has_entry-set_entry (key.stringify t) (key.stringify t) s memo.entries,
          eq_self (key.stringify t),
        )
        refl

  -- What a call leaves, with its result.
  pub record Computed (P : Target → Type 0) (memo : Inputs) (r : StringifiedSet × Inputs)
      : Type 0 where
    pub holds : Holds key r.0 P
    pub right : IsRight r.1
    pub extends : Extends memo r.1

  abbrev pub Computes : (Action → Inputs → Result (StringifiedSet × Inputs)) → Type 0
  Computes recurse =
      (a : Action) (memo : Inputs) (r : StringifiedSet × Inputs)
      → IsIndexed a
      → IsRight memo
      → recurse a memo ≡ ok r
      → Computed (IsInput key by_target a) memo r

  module _ (faithful : IsFaithful key)
      (consistent : (t : Target) (b : Action) → get key t by_target ≡ some b → target_of b ≡ t)
      (recurse : Action → Inputs → Result (StringifiedSet × Inputs))
      (computes : Computes recurse) where
    looked_up-IsIndexed : (t : Target) (b : Action) → get key t by_target ≡ some b → IsIndexed b
    looked_up-IsIndexed t b found =
        subst (λ v. get key v by_target ≡ some b) (sym (consistent t b found)) found

    pub add_inputs-Computed :
        (targets : List Target) (s : StringifiedSet) (P : Target → Type 0) (memo : Inputs)
        (r : StringifiedSet × Inputs)
        → Holds key s P
        → IsRight memo
        → add_inputs key by_target recurse targets s memo ≡ ok r
        → Computed (λ u. P u ⊎ Among key by_target targets u) memo r
    unfolding add_inputs
    add_inputs-Computed [] s P memo r h right e =
        subst (Computed (λ u. P u ⊎ Among key by_target [] u) memo) (ok_injective e) (record {
          holds = Holds-map key s P (λ u. P u ⊎ Among key by_target [] u) (λ u. (inl, only u)) h;
          right = right;
          extends = λ t k. k;
        })
      where
        only : (u : Target) → P u ⊎ Among key by_target [] u → P u
        only u (inl p) = p
        only u (inr (listed x)) = elim x [ ]
        only u (inr (behind t b x found follow i)) = elim x [ ]
    add_inputs-Computed (t ∷ targets) s P memo r h right e =
        elim (Option-cases (get key t by_target)) [
          | inl missing ↦ let e' = (rw (missing, add_inputs) at e) in cc
          | inr (b, found) ↦ elim (Bool-cases (is_source b)) [
            | inl source ↦
                let c =
                  add_inputs-Computed targets (add_value key t s) (λ u. P u ⊎ (t ≡ u)) memo r
                    (add_value-Holds key t s P h) right (rw (found, source, add_inputs) at e) in
                record {
                  holds =
                      Holds-map key r.0 _ _ (Among-source key by_target t targets b P found source)
                        c.holds;
                  right = c.right;
                  extends = c.extends;
                }
            | inr follow ↦
                let (q, e1, e2) =
                  bind-eq-ok (recurse b memo) _ (rw (found, follow, add_inputs) at e) in
                let inner = computes b memo q (looked_up-IsIndexed t b found) right e1 in
                let c =
                  add_inputs-Computed targets
                    (add_values key (values_of key q.0) (add_value key t s))
                    (λ u. (P u ⊎ (t ≡ u)) ⊎ Elem u (values_of key q.0)) q.1 r
                    (add_values-Holds key (values_of key q.0) (add_value key t s)
                      (λ u. P u ⊎ (t ≡ u)) (add_value-Holds key t s P h))
                    inner.right e2 in
                record {
                  holds =
                      Holds-map key r.0 _ _
                        (Among-follow key by_target t targets (values_of key q.0) b P found follow
                          (values_of_iff key q.0 (IsInput key by_target b) faithful inner.holds))
                        c.holds;
                  right = c.right;
                  extends = λ v k. c.extends v (inner.extends v k);
                }
          ]
        ]
